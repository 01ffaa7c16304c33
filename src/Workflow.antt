-- ===== src/Workflow.antt =====
-- crates/modeld-core/src/workflow.rs: the models that a ComfyUI workflow refers to. serde_json's reader
-- is a parameter, and so is Unicode's lower case; the values it gives are those of `serde_json::Value`.
pub mod Index
pub mod Rows
pub mod Indexed
pub mod Kept
pub mod Find
mod Tests
use model_id.Base.{
  ℕ, Bool, true, false, ◌||◌, not, Option, none, some, List, [], ◌∷◌, ◌++◌, map, any, find, select,
  if◌then◌else◌, list_eq, nat_eq, ◌==◌, get_elem?,
}
use model_id.Base.Options.{◌>>=◌}
use model_id.Base.Text.{Text, codes, trim}
use model_id.Base.Search.{ends_with}
use model_id.Hash.{to_lower}
use model_id.Sys.{FilePath}

-- `serde_json::Value`; what a number is, is not looked at.
mutual
  pub data Value : Type 0 where
    null : Value
    boolean : Bool → Value
    number : Value
    string : Text → Value
    array : Items → Value
    object : Fields → Value

  pub data Items : Type 0 where
    nil : Items
    item : Value → Items → Items

  pub data Fields : Type 0 where
    end : Fields
    field : Text → Value → Fields → Fields

abbrev pub list_of : Items → List Value
list_of nil = []
list_of (item v vs) = v ∷ list_of vs

unfoldable pub member : Text → Fields → Option Value
member key end = none
member key (field k v fs) = if k == key then some v else member key fs

abbrev pub as_object : Value → Option Fields
as_object (object fs) = some fs
as_object _ = none

abbrev pub as_array : Value → Option (List Value)
as_array (array vs) = some (list_of vs)
as_array _ = none

abbrev pub as_str : Value → Option Text
as_str (string s) = some s
as_str _ = none

-- `json.get(key)`
abbrev pub get : Text → Value → Option Value
get key v = as_object v >>= member key

-- `a.or_else(|| b)`
abbrev pub or_else {ℓ} : {A : Type ℓ} → Option A → Option A → Option A
or_else none other = other
or_else (some a) other = some a

pub record Loader : Type 0 where
  pub node_type : Text
  pub ref_type : Text
  pub input_key : Text

abbrev loader : Text → Text → Text → Loader
loader node_type ref_type input_key = record {
  node_type = node_type;
  ref_type = ref_type;
  input_key = input_key;
}

abbrev pub known_loaders : List Loader
known_loaders =
    loader (codes "CheckpointLoaderSimple") (codes "checkpoint") (codes "ckpt_name")
    ∷ loader (codes "CheckpointLoader") (codes "checkpoint") (codes "ckpt_name")
    ∷ loader (codes "unCLIPCheckpointLoader") (codes "checkpoint") (codes "ckpt_name")
    ∷ loader (codes "LoraLoader") (codes "lora") (codes "lora_name")
    ∷ loader (codes "LoraLoaderModelOnly") (codes "lora") (codes "lora_name")
    ∷ loader (codes "Power Lora Loader (rgthree)") (codes "lora") (codes "lora_name")
    ∷ loader (codes "VAELoader") (codes "vae") (codes "vae_name")
    ∷ loader (codes "CLIPLoader") (codes "clip") (codes "clip_name")
    ∷ loader (codes "DualCLIPLoader") (codes "clip") (codes "clip_name1")
    ∷ loader (codes "ControlNetLoader") (codes "controlnet") (codes "control_net_name")
    ∷ loader (codes "DiffControlNetLoader") (codes "controlnet") (codes "control_net_name")
    ∷ loader (codes "IPAdapterModelLoader") (codes "ipadapter") (codes "ipadapter_file")
    ∷ loader (codes "IPAdapterUnifiedLoader") (codes "ipadapter") (codes "preset")
    ∷ loader (codes "UNETLoader") (codes "unet") (codes "unet_name")
    ∷ loader (codes "ModelSamplingFlux") (codes "unet") (codes "unet_name")
    ∷ loader (codes "UpscaleModelLoader") (codes "upscale_model") (codes "model_name")
    ∷ []

-- `eq_ignore_ascii_case`
abbrev pub eq_ignore_ascii_case : Text → Text → Bool
eq_ignore_ascii_case s t = map to_lower s == map to_lower t

unfoldable pub loader_for_node_type : Text → Option Loader
loader_for_node_type node_type =
    find (λ (l : Loader). eq_ignore_ascii_case l.node_type node_type) known_loaders

pub record ModelRef : Type 0 where
  pub node_type : Text
  pub ref_type : Text
  pub model_name : Text
  pub is_known : Bool

pub record ParsedWorkflow : Type 0 where
  pub path : FilePath
  pub title : Option Text
  pub refs : List ModelRef
  pub unresolved : List ModelRef

unfoldable pub extract_title : Value → Option Text
unfolding member
extract_title json =
    or_else (get (codes "extra") json >>= get (codes "ds") >>= get (codes "title"))
      (get (codes "title") json)
    >>= as_str

-- `arr.iter().find_map(f)`
abbrev pub find_map {ℓ κ} : {A : Type ℓ} {B : Type κ} → (A → Option B) → List A → Option B
find_map f [] = none
find_map f (x ∷ xs) = or_else (f x) (find_map f xs)

abbrev pub first_is : Text → List Value → Bool
first_is key vs = elim (get_elem? vs 0 >>= as_str) [ none ↦ false | some k ↦ k == key ]

-- `[key, link, value]`
abbrev pub input_value : Text → Value → Option Text
input_value key v =
    as_array v >>= λ sub. if first_is key sub then get_elem? sub 2 >>= as_str else none

unfoldable pub extract_from_inputs_array : Value → Text → Option Text
unfolding member
extract_from_inputs_array node input_key =
    get (codes "inputs") node >>= as_array >>= find_map (input_value input_key)

unfoldable pub extract_from_inputs_object : Value → Text → Option Text
unfolding member
extract_from_inputs_object node input_key =
    get (codes "inputs") node >>= as_object >>= member input_key >>= as_str

-- The names of model files, by their endings.
abbrev pub extensions : List Text
extensions =
    codes ".safetensors"
    ∷ codes ".ckpt"
    ∷ codes ".pt"
    ∷ codes ".pth"
    ∷ codes ".gguf"
    ∷ codes ".bin"
    ∷ codes ".pkl"
    ∷ []

abbrev pub slash_for_backslash : ℕ → ℕ
slash_for_backslash c = if c == 92 then b'/' else c

unfoldable pub normalize_model_name : Text → Text
unfolding trim
normalize_model_name name = map slash_for_backslash (trim name)

module _ (to_lowercase : Text → Text) where
  unfoldable pub looks_like_model_filename : Text → Bool
  unfolding ends_with
  looks_like_model_filename s = any (λ ext. ends_with ext (to_lowercase s)) extensions

  abbrev pub model_widget : Value → Option Text
  model_widget v =
      as_str v >>= λ s. if looks_like_model_filename (trim s) then some (trim s) else none

  unfoldable pub extract_first_model_from_widgets : Value → Option Text
  unfolding member looks_like_model_filename trim
  extract_first_model_from_widgets node =
      get (codes "widgets_values") node >>= as_array >>= find_map model_widget

  abbrev pub model_ref : Text → Loader → Option Text → List ModelRef
  model_ref node_type l none = []
  model_ref node_type l (some name) =
      record {
        node_type = node_type;
        ref_type = l.ref_type;
        model_name = normalize_model_name name;
        is_known = true;
      }
      ∷ []

  -- The three places in their order.
  abbrev pub name_in : Value → Text → Option Text
  name_in node key =
      or_else (extract_from_inputs_array node key)
        (or_else (extract_from_inputs_object node key) (extract_first_model_from_widgets node))

  abbrev pub refs_of_type : Value → Text → Option Loader → List ModelRef
  refs_of_type node node_type none = []
  refs_of_type node node_type (some l) = model_ref node_type l (name_in node l.input_key)

  abbrev pub refs_of_node : Value → Option Text → List ModelRef
  refs_of_node node none = []
  refs_of_node node (some t) = refs_of_type node t (loader_for_node_type t)

  unfoldable pub extract_refs_from_node : Value → List ModelRef → List ModelRef
  unfolding loader_for_node_type extract_from_inputs_array extract_from_inputs_object
      extract_first_model_from_widgets normalize_model_name
  extract_refs_from_node node refs = refs ++ refs_of_node node (get (codes "type") node >>= as_str)

  unfoldable pub extract_all : List Value → List ModelRef → List ModelRef
  unfolding extract_refs_from_node
  extract_all [] refs = refs
  extract_all (node ∷ nodes) refs = extract_all nodes (extract_refs_from_node node refs)

  -- The nodes of an object with `nodes`, or of a flat array.
  abbrev pub nodes_of : Value → Option (List Value)
  nodes_of json = or_else (get (codes "nodes") json >>= as_array) (as_array json)

  abbrev pub refs_of_nodes : Option (List Value) → List ModelRef
  refs_of_nodes none = []
  refs_of_nodes (some nodes) = extract_all nodes []

  unfoldable pub extract_model_refs : Value → List ModelRef
  unfolding member extract_all
  extract_model_refs json = refs_of_nodes (nodes_of json)

  -- What `parse_workflow` makes of the JSON.
  unfoldable pub parsed : FilePath → Value → ParsedWorkflow
  unfolding extract_title extract_model_refs
  parsed path json = record {
    path = path;
    title = extract_title json;
    refs = select (λ (r : ModelRef). r.is_known) (extract_model_refs json);
    unresolved = select (λ (r : ModelRef). not r.is_known) (extract_model_refs json);
  }
