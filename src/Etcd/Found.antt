-- ===== src/Etcd/Found.antt =====
-- What the other servers find of a connection server that has registered.
use Prim.Native.String.{String}
use zqim.Prelude.{List, string_eq}
use zqim.Prelude.Maps
use zqim.Balance.Sync
use zqim.Registry
use zqim.Etcd.{Etcd}
