-- ===== src/Numbers/Owner.antt =====
-- `is_owner_whatsapp_number` of channels/whatsapp/numbers.py: whose messages are answered.
use Prim.Native.Char.{code}
use tempa.Base.{
  ℕ, String, Bool, true, false, not, ◌&&◌, ◌||◌, Option, none, some, List, [], ◌∷◌, ◌==◌, any,
  if◌then◌else◌, eqb,
}
use tempa.Base.Dict
use tempa.Base.Dict.{Dict}
use tempa.Base.Text.{includes}
use tempa.Base.Value.{Value, str_or, text}
use tempa.Numbers.Phone.{normalize_phone, phones_match, digits_of}
use tempa.Numbers.Allowed.{Store, load_linked_owner, get_allowed_whatsapp_reply_numbers}

-- `s.split(separator)[0]`
unfoldable pub before : (separator : ℕ) → String → String
before separator String.[] = ""
before separator (String.◌∷◌ c s) =
    let rest = before separator s in if eqb (code c) separator then "" else String.◌∷◌ c rest

unfoldable pub is_allowed : (allowed : List String) → String → Bool
is_allowed allowed number = any (phones_match number) allowed

-- The loop over `lid_phones`: an entry for the sender's or the chat's digits that maps to an allowed
-- number.
abbrev pub is_lid_entry : (number chat_id : String) (allowed : List String) → String × Value → Bool
is_lid_entry number chat_id allowed (lid_key, text mapped_phone) =
    let lid = digits_of lid_key in
    not (lid == "")
    && (lid == digits_of number || lid == digits_of (before b'@' chat_id))
    && is_allowed allowed mapped_phone
is_lid_entry number chat_id allowed (lid_key, _) = false

abbrev pub is_known_lid :
    (number chat_id : String) (allowed : List String) → Option (Dict Value) → Bool
is_known_lid number chat_id allowed none = false
is_known_lid number chat_id allowed (some lids) = any (is_lid_entry number chat_id allowed) lids

-- An alternative identifier of the message's key that has an allowed number.
unfoldable pub is_alt_allowed : (allowed : List String) → Dict Value → String → Bool
is_alt_allowed allowed key alt_key =
    let alt = str_or (Dict.get key alt_key) in
    includes alt "@" && is_allowed allowed (normalize_phone (before b':' (before b'@' alt)))

-- `str(key.get("remoteJid") or chat_id or "")`
abbrev remote_of : (chat_id : String) → Dict Value → String
remote_of chat_id key =
    let remote = str_or (Dict.get key "remoteJid") in if remote == "" then chat_id else remote

-- The message is in the chat of the linked account itself.
unfoldable pub is_own_chat : (owner_jid chat_id : String) → Dict Value → Bool
is_own_chat owner_jid chat_id key =
    let remote = remote_of chat_id key in
    not (owner_jid == "")
    && not (remote == "")
    && (remote == owner_jid || before b'@' remote == before b'@' owner_jid)

unfoldable pub is_key_allowed :
    (allowed : List String) (owner_jid chat_id : String) → Option (Dict Value) → Bool
is_key_allowed allowed owner_jid chat_id none = false
is_key_allowed allowed owner_jid chat_id (some key) =
    is_alt_allowed allowed key "remoteJidAlt"
    || is_alt_allowed allowed key "participantAlt"
    || is_own_chat owner_jid chat_id key

-- The key of a raw item: without an item it is empty, and none is what is no dictionary.
abbrev pub key_of : Option (Option (Dict Value)) → Option (Dict Value)
key_of none = some []
key_of (some key) = key

abbrev pub is_nobody : List String → Bool
is_nobody [] = true
is_nobody (phone ∷ phones) = false

unfoldable pub is_owner_whatsapp_number :
    (number chat_id : String) (raw_item : Option (Option (Dict Value))) → Store → Bool
is_owner_whatsapp_number number chat_id raw_item store =
    let allowed = get_allowed_whatsapp_reply_numbers store in
    let linked = load_linked_owner store in
    let owner_jid = str_or linked.owner_jid in
    if is_nobody allowed
    then true
    else is_known_lid number chat_id allowed linked.lid_phones
      || is_key_allowed allowed owner_jid chat_id (key_of raw_item)
      || (not (chat_id == "") && not (owner_jid == "") && chat_id == owner_jid)
      || is_allowed allowed number
