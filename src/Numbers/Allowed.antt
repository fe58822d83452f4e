-- ===== src/Numbers/Allowed.antt =====
-- The linked account and the numbers that are answered: channels/whatsapp/numbers.py.
use Prim.Native.String.{◌++◌}
use tempa.Base.{
  String, Bool, true, false, not, ◌||◌, Option, none, some, List, [], ◌∷◌, ◌==◌, contains, map,
  if◌then◌else◌,
}
use tempa.Base.Dict.{Dict}
use tempa.Base.Text.{strip}
use tempa.Base.Value.{Value, str, str_or, text, truthy}
use tempa.Numbers.Phone.{normalize_phone}

-- The file of the linked owner; `lid_phones` is none where it is no object.
pub record Linked : Type 0 where
  pub bridge_phone : Option Value
  pub owner_jid : Option Value
  pub phone : Option Value
  pub lid_phones : Option (Dict Value)

-- A field of the file of allowed numbers: a list, or something else.
pub data Field : Type 0 where
  listed : List Value → Field
  single : Value → Field

-- The file of allowed numbers; `broken` is one that does not parse or is no object.
pub data File : Type 0 where
  broken : File
  parsed : (additional extra : Option Field) → File

-- The setting of the owner's number and the files of the channel.
pub record Store : Type 0 where
  pub whatsapp_owner_number : String
  pub linked_owner : Option Linked
  pub default_number : Option String
  pub allowed_extra : Option File

abbrev pub no_linked : Linked
no_linked = record { bridge_phone = none; owner_jid = none; phone = none; lid_phones = none }

-- `_load_linked_owner`
abbrev pub load_linked_owner : Store → Linked
load_linked_owner store = elim store.linked_owner [ none ↦ no_linked | some linked ↦ linked ]

-- `save_linked_owner`
unfoldable pub save_linked_owner :
    (phone owner_jid : String) (bridge_only : Bool) → Store → String × Store
save_linked_owner phone owner_jid bridge_only store =
    let number = normalize_phone phone in
    let linked = load_linked_owner store in
    if number == "" then ("", store) else (
      number,
      record store {
        linked_owner = some (record linked {
          bridge_phone = some (text number);
          owner_jid =
              some (text (if owner_jid == "" then number ++ "@s.whatsapp.net" else owner_jid));
          phone = if bridge_only then linked.phone else some (text number);
        });
      },
    )

unfoldable pub get_bridge_whatsapp_phone : Store → String
get_bridge_whatsapp_phone store = normalize_phone (str_or (load_linked_owner store).bridge_phone)

-- `isinstance(value, str) and value.strip()`
abbrev filled_text : Option Value → Option String
filled_text (some (text s)) = if strip s == "" then none else some s
filled_text _ = none

abbrev first_of : Option String → Option String → Option String
first_of none b = b
first_of (some a) b = some a

abbrev stripped : Option String → Option String
stripped none = none
stripped (some s) = some (strip s)

abbrev pub normalized : Option String → String
normalized none = ""
normalized (some s) = normalize_phone s

unfoldable pub get_owner_whatsapp_number : Store → String
get_owner_whatsapp_number store =
    let linked = load_linked_owner store in
    if not (store.whatsapp_owner_number == "")
    then normalize_phone store.whatsapp_owner_number
    else normalized (
        first_of (filled_text linked.phone)
          (first_of (filled_text linked.bridge_phone) (stripped store.default_number)))

-- The loop of the two functions below: the normalised numbers but the owner's, each once.
unfoldable pub distinct : (primary : String) (seen : List String) → List String → List String
distinct primary seen [] = []
distinct primary seen (item ∷ items) =
    let phone = normalize_phone item in
    let skip = phone == "" || phone == primary || contains seen phone in
    let rest = distinct primary (if skip then seen else phone ∷ seen) items in
    if skip then rest else phone ∷ rest

-- `data.get("additional") or data.get("extra") or []`, where that is a list
abbrev is_filled : Option Field → Bool
is_filled none = false
is_filled (some (listed [])) = false
is_filled (some (listed (v ∷ vs))) = true
is_filled (some (single v)) = truthy v

abbrev list_of : Option Field → List Value
list_of (some (listed vs)) = vs
list_of _ = []

abbrev pub raw_numbers : Option File → List Value
raw_numbers none = []
raw_numbers (some broken) = []
raw_numbers (some (parsed additional extra)) =
    if is_filled additional then list_of additional else list_of extra

unfoldable pub get_extra_allowed_whatsapp_numbers : Store → List String
unfolding str
get_extra_allowed_whatsapp_numbers store =
    distinct (get_owner_whatsapp_number store) [] (map str (raw_numbers store.allowed_extra))

unfoldable pub set_extra_allowed_whatsapp_numbers : List String → Store → List String × Store
set_extra_allowed_whatsapp_numbers numbers store =
    let normalized = distinct (get_owner_whatsapp_number store) [] (map strip numbers) in
    (
      normalized,
      record store { allowed_extra = some (parsed (some (listed (map text normalized))) none) },
    )

-- Each number that is not empty, once.
unfoldable pub once : (seen : List String) → List String → List String
once seen [] = []
once seen (phone ∷ phones) =
    let skip = phone == "" || contains seen phone in
    let rest = once (if skip then seen else phone ∷ seen) phones in
    if skip then rest else phone ∷ rest

-- An empty number of the owner or the bridge is left out by `once` as it is by the source's tests.
unfoldable pub get_allowed_whatsapp_reply_numbers : Store → List String
get_allowed_whatsapp_reply_numbers store = once [] (
    get_owner_whatsapp_number store
    ∷ get_bridge_whatsapp_phone store
    ∷ get_extra_allowed_whatsapp_numbers store)
