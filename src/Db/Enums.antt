-- ===== src/Db/Enums.antt =====
-- The enumerations that are columns of the tables, and the texts that stand for them there.
use model_id.Base.{◌≡◌, refl, Option, none, some, if◌then◌else◌, list_eq, nat_eq, ◌==◌}
use model_id.Base.Text.{Text, codes}

pub data AliasType : Type 0 where
  hardlink symlink junction reference_only original : AliasType

pub data Frontend : Type 0 where
  comfy_ui forge a1111 hf_cache user : Frontend

pub data TransactionStatus : Type 0 where
  pending copied committed failed rolled_back : TransactionStatus

pub data ScanStatus : Type 0 where
  indexed missing changed : ScanStatus

unfoldable pub alias_type_as_str : AliasType → Text
alias_type_as_str hardlink = codes "hardlink"
alias_type_as_str symlink = codes "symlink"
alias_type_as_str junction = codes "junction"
alias_type_as_str reference_only = codes "reference_only"
alias_type_as_str original = codes "original"

unfoldable pub alias_type_from_db_value : Text → Option AliasType
alias_type_from_db_value s =
    if s == codes "hardlink"
    then some hardlink
    else if s == codes "symlink"
    then some symlink
    else if s == codes "junction"
    then some junction
    else if s == codes "reference_only"
    then some reference_only
    else if s == codes "original"
    then some original
    else none

unfoldable pub frontend_as_str : Frontend → Text
frontend_as_str comfy_ui = codes "comfyui"
frontend_as_str forge = codes "forge"
frontend_as_str a1111 = codes "a1111"
frontend_as_str hf_cache = codes "hf_cache"
frontend_as_str user = codes "user"

unfoldable pub frontend_from_db_value : Text → Option Frontend
frontend_from_db_value s =
    if s == codes "comfyui"
    then some comfy_ui
    else if s == codes "forge"
    then some forge
    else if s == codes "a1111"
    then some a1111
    else if s == codes "hf_cache"
    then some hf_cache
    else if s == codes "user"
    then some user
    else none

unfoldable pub tx_status_as_str : TransactionStatus → Text
tx_status_as_str pending = codes "pending"
tx_status_as_str copied = codes "copied"
tx_status_as_str committed = codes "committed"
tx_status_as_str failed = codes "failed"
tx_status_as_str rolled_back = codes "rolled_back"

unfoldable pub tx_status_from_db_value : Text → Option TransactionStatus
tx_status_from_db_value s =
    if s == codes "pending"
    then some pending
    else if s == codes "copied"
    then some copied
    else if s == codes "committed"
    then some committed
    else if s == codes "failed"
    then some failed
    else if s == codes "rolled_back"
    then some rolled_back
    else none

unfoldable pub scan_status_as_str : ScanStatus → Text
scan_status_as_str indexed = codes "indexed"
scan_status_as_str missing = codes "missing"
scan_status_as_str changed = codes "changed"

pub alias_type_round_trip :
    (x : AliasType) → alias_type_from_db_value (alias_type_as_str x) ≡ some x
unfolding alias_type_as_str alias_type_from_db_value list_eq nat_eq
alias_type_round_trip hardlink = refl
alias_type_round_trip _ = refl

pub frontend_round_trip : (x : Frontend) → frontend_from_db_value (frontend_as_str x) ≡ some x
unfolding frontend_as_str frontend_from_db_value list_eq nat_eq
frontend_round_trip comfy_ui = refl
frontend_round_trip _ = refl

pub tx_status_round_trip :
    (x : TransactionStatus) → tx_status_from_db_value (tx_status_as_str x) ≡ some x
unfolding tx_status_as_str tx_status_from_db_value list_eq nat_eq
tx_status_round_trip pending = refl
tx_status_round_trip _ = refl
