-- ===== src/Registry.antt =====
-- comit/registrationDiscovery/registry.go and comit/manage/comits.go: the table of the other
-- connection servers, which follows etcd. Keys are as TrimPrefix leaves them; `dial` stands for
-- NewComitServer, which connects to an address with gRPC, and gives the server's address in the
-- model.
pub mod Latest
mod Tests
use zqim.Prelude.{ℕ, ◌≡◌, Bool, Option, none, some, List, [], ◌∷◌, if◌then◌else◌, string_eq}
use zqim.Prelude.Maps
use Prim.Native.String.{String}

abbrev pub Comits : Type 0
Comits = List (String × ℕ)

-- An event of the watch on /root/comit/grpcserver/, with the value of a PUT.
pub data Event : Type 0 where
  put : String → String → Event
  delete : String → Event

module _ (dial : String → Option ℕ) (server_name : String) where
  -- An error leaves the table as it is.
  unfoldable pub add_comit_server : String → String → Comits → Comits
  add_comit_server key addr comits = elim (dial addr) [
    | none ↦ comits
    | some server ↦ Maps.insert key server comits
  ]

  abbrev pub delete_comit_server : String → Comits → Comits
  delete_comit_server key comits = Maps.erase key comits

  -- The server's own entry is passed over.
  unfoldable pub watch_event : Event → Comits → Comits
  unfolding add_comit_server
  watch_event (put key value) comits =
      if string_eq.beq key server_name then comits else add_comit_server key value comits
  watch_event (delete key) comits =
      if string_eq.beq key server_name then comits else delete_comit_server key comits

  unfoldable pub watch : List Event → Comits → Comits
  unfolding watch_event
  watch [] comits = comits
  watch (e ∷ es) comits = watch es (watch_event e comits)

  -- GetConfig over the entries that etcd has at the start.
  unfoldable pub get_config : List (String × String) → Comits → Comits
  unfolding add_comit_server
  get_config [] comits = comits
  get_config ((key, value) ∷ kvs) comits =
      get_config kvs
        (if string_eq.beq key server_name then comits else add_comit_server key value comits)
