-- ===== src/Numbers/Delivery.antt =====
-- Where messages are delivered, and the mapping of hidden identifiers to phones:
-- channels/whatsapp/numbers.py.
use Prim.Native.String.{◌++◌}
use tempa.Base.{String, Bool, not, ◌&&◌, ◌||◌, Option, none, some, [], ◌∷◌, ◌==◌, if◌then◌else◌}
use tempa.Base.Dict
use tempa.Base.Dict.{Dict}
use tempa.Base.Text.{includes, ends_with}
use tempa.Base.Value.{Value, str_or, text, is_text, first_truthy}
use tempa.Numbers.Phone.{normalize_phone, phones_match, digits_of}
use tempa.Numbers.Allowed.{
  Store, load_linked_owner, get_owner_whatsapp_number, get_bridge_whatsapp_phone,
}
use tempa.Numbers.Owner.{before}

unfoldable pub is_bridge_self_chat : (chat_id : String) → Store → Bool
is_bridge_self_chat chat_id store =
    let bridge = get_bridge_whatsapp_phone store in
    not (bridge == "")
    && ends_with chat_id "@s.whatsapp.net"
    && phones_match (before b'@' chat_id) bridge

-- The loop of `resolve_whatsapp_jid`: the first entry for the phone.
abbrev or_lid : (lid : String) → Bool → Option String → Option String
or_lid lid matches rest = if matches && not (lid == "") then some lid else rest

unfoldable pub find_lid : (phone : String) → Dict Value → Option String
find_lid phone [] = none
find_lid phone ((lid_key, text mapped) ∷ lids) =
    or_lid (digits_of lid_key) (phones_match mapped phone) (find_lid phone lids)
find_lid phone ((lid_key, _) ∷ lids) = find_lid phone lids

abbrev pub lids_of : Store → Dict Value
lids_of store = elim (load_linked_owner store).lid_phones [ none ↦ [] | some lids ↦ lids ]

unfoldable pub resolve_whatsapp_jid : (phone : String) → Store → String
resolve_whatsapp_jid phone store =
    let number = normalize_phone phone in
    if number == "" then "" else elim (find_lid number (lids_of store)) [
      | none ↦ number ++ "@s.whatsapp.net"
      | some lid ↦ lid ++ "@lid"
    ]

unfoldable pub get_owner_delivery_jid : Store → String
get_owner_delivery_jid store =
    let owner = get_owner_whatsapp_number store in
    let bridge = get_bridge_whatsapp_phone store in
    if not (owner == "") && not (bridge == "") && not (phones_match owner bridge)
    then bridge ++ "@s.whatsapp.net"
    else if not (owner == "")
    then resolve_whatsapp_jid owner store
    else if not (bridge == "")
    then bridge ++ "@s.whatsapp.net"
    else ""

unfoldable pub owner_delivery_for_number : (number : String) → Store → String
owner_delivery_for_number number store =
    let local = normalize_phone (if includes number "@" then before b'@' number else number) in
    let jid = get_owner_delivery_jid store in
    if not (local == "") && phones_match local (get_owner_whatsapp_number store) && not (jid == "")
    then jid
    else if includes number "@"
    then number
    else resolve_whatsapp_jid number store

-- `jid.split("@")[0].split(":")[0]`
abbrev pub user_of : (jid : String) → String
user_of jid = before b':' (before b'@' jid)

-- `_remember_lid_phone`
unfoldable pub remember_lid_phone : (lid phone : String) → Store → Store
remember_lid_phone lid phone store =
    let key = digits_of (user_of lid) in
    let number = normalize_phone phone in
    if key == "" || number == "" || is_text (Dict.get (lids_of store) key) number
    then store
    else record store {
      linked_owner = some (record (load_linked_owner store) {
        lid_phones = some (Dict.put (lids_of store) key (text number));
      });
    }

-- For the key of a raw item: none where that is no dictionary.
unfoldable pub remember_message_lid_mapping : Option (Dict Value) → Store → Store
remember_message_lid_mapping none store = store
remember_message_lid_mapping (some key) store =
    let remote = str_or (Dict.get key "remoteJid") in
    let alt = str_or (first_truthy (Dict.get key "remoteJidAlt") (Dict.get key "participantAlt")) in
    if ends_with remote "@lid" && includes alt "@"
    then remember_lid_phone remote (user_of alt) store
    else store
