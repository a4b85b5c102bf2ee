-- ===== src/Rpc/Objects.antt =====
-- dm_engine/src/DM_ENG_RPCInterface.c: `DM_ENG_AddObject` and `DM_ENG_DeleteObject`.
use tr069agent.Prelude.{ℕ, ◌==◌, ◌&&◌, Option, none, some, ◌>>=◌, if◌then◌else◌, Bytes}
use tr069agent.Access.{Manager, Platform, entity_acs, invalid_parameter_name}
use tr069agent.Access.Set.{Status, undetermined}
use tr069agent.Access.Commit.{set_parameter_key}
use tr069agent.Access.Objects.{Added, add_fault, add_object, delete_parameter_object}

-- On success, the ACS sets its key.
unfoldable pub set_object_key : Platform → ℕ → ℕ → Manager → Option Bytes → Option Manager
unfolding set_parameter_key
set_object_key pf entity code m key =
    if code == 0 && entity == entity_acs then set_parameter_key pf m key else some m

-- `none` is a crash.
unfoldable pub rpc_add_object : Platform → Manager → ℕ → Option Bytes → Option Bytes → Option Added
unfolding add_object set_object_key add_fault
rpc_add_object pf m entity none key = some (add_fault invalid_parameter_name undetermined m)
rpc_add_object pf m entity (some object) key = add_object pf m entity object >>= λ a.
    set_object_key pf entity a.code a.manager key >>= λ m'. some (record a { manager = m' })

unfoldable pub rpc_delete_object :
    Platform → Manager → ℕ → Option Bytes → Option Bytes → Option (ℕ × Status × Manager)
unfolding delete_parameter_object set_object_key
rpc_delete_object pf m entity none key = some (invalid_parameter_name, undetermined, m)
rpc_delete_object pf m entity (some object) key =
    let (code, status, m') = delete_parameter_object pf m entity object in
    set_object_key pf entity code m' key >>= λ m''. some (code, status, m'')
