-- ===== src/Etcd/Tests.antt =====
-- The registration of a server at a concrete input.
use Prim.Native.String.{String}
use zqim.Prelude.{ℕ, Option, some, [], ◌∷◌}
use zqim.Prelude.Maps
use zqim.Balance.{ComitManages}
use zqim.Balance.Sync
use zqim.Etcd.{Config}
use zqim.Etcd.Samples.{Entries}

abbrev cfg : Config
cfg = record { server_name = "im2"; im_addr = "10.0.0.2:8000"; grpc_addr = "10.0.0.2:9000" }

-- Another server has registered before.
abbrev before : Entries
before =
    ("/root/comit/grpcserver/im1", "10.0.0.1:9000")
    ∷ ("/root/comit/imserver/im1", "10.0.0.1:8000")
    ∷ []

abbrev registered_too : Entries
registered_too =
    ("/root/comit/grpcserver/im1", "10.0.0.1:9000")
    ∷ ("/root/comit/imserver/im1", "10.0.0.1:8000")
    ∷ ("/root/comit/imserver/im2", "10.0.0.2:8000")
    ∷ ("/root/comit/grpcserver/im2", "10.0.0.2:9000")
    ∷ []

abbrev dial : String → Option ℕ
dial addr = some 3

-- The web server's name.
abbrev own : String
own = "web"

abbrev none_yet : ComitManages
none_yet = record { comits = []; tcpserver = []; index = 0 }

abbrev found : ComitManages
found = record {
  comits = ("im1", 3) ∷ ("im2", 3) ∷ [];
  tcpserver = "10.0.0.1:8000" ∷ "10.0.0.2:8000" ∷ [];
  index = 0;
}
