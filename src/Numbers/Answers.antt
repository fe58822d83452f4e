-- ===== src/Numbers/Answers.antt =====
-- Which senders `is_owner_whatsapp_number` of channels/whatsapp/numbers.py lets through.
use tempa.Base.{
  String, Bool, true, false, not, ◌&&◌, ◌||◌, Option, none, some, List, [], ◌∷◌, ◌==◌, ◌≡◌, refl,
  ap, ◌∙◌, subst, contains, map, if◌then◌else◌, Bool-cases, inl, inr, arith, eq_iff,
}
use tempa.Base.Dict
use tempa.Base.Dict.{Dict}
use tempa.Base.Text.{strip, strip_idem, includes, starts_with}
use tempa.Base.Value.{Value, str_or}
use tempa.Numbers.Phone.{normalize_phone}
use tempa.Numbers.Allowed.{
  Store, Linked, no_linked, load_linked_owner, distinct, once, get_extra_allowed_whatsapp_numbers,
  set_extra_allowed_whatsapp_numbers, get_owner_whatsapp_number, get_bridge_whatsapp_phone,
  get_allowed_whatsapp_reply_numbers,
}
use tempa.Numbers.Owner.{
  is_allowed, is_known_lid, is_owner_whatsapp_number, is_nobody, is_key_allowed, is_alt_allowed,
  is_own_chat, key_of,
}
use tempa.Numbers.RoundTrip.{get_extra-set_extra, get_owner-set_extra}
use tempa.Numbers.Normal.{allowed-IsNumber, is_allowed-contains, eq_swap}

no_key :
    (allowed : List String) (chat_id : String) → is_key_allowed allowed "" chat_id (some []) ≡ false
unfolding is_key_allowed is_alt_allowed is_own_chat Dict.get str_or includes starts_with
no_key allowed chat_id = refl

-- Without a linked account and without a raw item.
unlinked-is_owner :
    (number chat_id : String) (allowed : List String) (linked : Linked)
    → linked ≡ no_linked
    → (is_known_lid number chat_id allowed linked.lid_phones
        || is_key_allowed allowed (str_or linked.owner_jid) chat_id (some [])
        || (not (chat_id == "")
            && not (str_or linked.owner_jid == "")
            && chat_id == str_or linked.owner_jid)
        || is_allowed allowed number)
      ≡ is_allowed allowed number
unfolding str_or
unlinked-is_owner number chat_id allowed linked e = rw (e, no_key allowed chat_id) (ground arith)

-- Where no account is linked and the message has no raw item: once some number is allowed, a message
-- is answered exactly where its sender's normalised number is one of those allowed.
pub is_owner-contains :
    (number chat_id : String) (store : Store)
    → store.linked_owner ≡ none
    → is_nobody (get_allowed_whatsapp_reply_numbers store) ≡ false
    → is_owner_whatsapp_number number chat_id none store
      ≡ contains (get_allowed_whatsapp_reply_numbers store) (normalize_phone number)
unfolding is_owner_whatsapp_number
is_owner-contains number chat_id store unlinked some_allowed =
    let allowed = get_allowed_whatsapp_reply_numbers store in
    let linked : load_linked_owner store ≡ no_linked = rw unlinked refl in
    rw some_allowed (
      unlinked-is_owner number chat_id allowed (load_linked_owner store) linked
      ∙ is_allowed-contains number allowed (allowed-IsNumber store))

contains-distinct :
    (primary number : String) (seen items : List String)
    → (normalize_phone number == "") ≡ false
    → contains items number ≡ true
    → (normalize_phone number == primary
        || contains seen (normalize_phone number)
        || contains (distinct primary seen items) (normalize_phone number))
      ≡ true
unfolding distinct
contains-distinct primary number seen [] filled h = absurd cc
contains-distinct primary number seen (item ∷ items) filled h =
    let phone = normalize_phone item in
    let same = contains-distinct primary number seen items filled in
    let more = contains-distinct primary number (phone ∷ seen) items filled in
    elim (Bool-cases (phone == "" || phone == primary || contains seen phone)) [
      | inl skip ↦ rw skip (elim (Bool-cases (item == number)) [
        | inl found ↦
            let e = ap normalize_phone ((eq_iff item number).0 found) in
            let held = subst (λ x. (x == "" || x == primary || contains seen x) ≡ true) e skip in
            ground arith
        | inr later ↦ same (ground arith)
      ])
      | inr fresh ↦ rw fresh (elim (Bool-cases (item == number)) [
        | inl found ↦
            let e = ap normalize_phone ((eq_iff item number).0 found) in
            let first = (eq_iff phone (normalize_phone number)).1 e in ground arith
        | inr later ↦ let rest = more (ground arith) in ground arith
      ])
    ]

contains-once :
    (phone : String) (seen phones : List String)
    → (phone == "") ≡ false
    → contains phones phone ≡ true
    → (contains seen phone || contains (once seen phones) phone) ≡ true
unfolding once
contains-once phone seen [] filled h = absurd cc
contains-once phone seen (p ∷ phones) filled h =
    let same = contains-once phone seen phones filled in
    let more = contains-once phone (p ∷ seen) phones filled in ground (arith, eq_iff p phone)

contains-map :
    (numbers : List String) (number : String)
    → contains numbers number ≡ true
    → contains (map strip numbers) (strip number) ≡ true
contains-map [] number h = absurd cc
contains-map (n ∷ numbers) number h = elim (Bool-cases (n == number)) [
  | inl found ↦ rw ((eq_iff (strip n) (strip number)).1 (ap strip ((eq_iff n number).0 found))) refl
  | inr later ↦ let rest = contains-map numbers number (ground arith) in ground arith
]

normalize-strip : (number : String) → normalize_phone (strip number) ≡ normalize_phone number
unfolding normalize_phone
normalize-strip number = rw (strip_idem number)

get_extra_stored :
    (numbers : List String) (store : Store)
    → get_extra_allowed_whatsapp_numbers (set_extra_allowed_whatsapp_numbers numbers store).1
      ≡ distinct (get_owner_whatsapp_number store) [] (map strip numbers)
get_extra_stored numbers store =
    get_extra-set_extra numbers store ∙ unfold set_extra_allowed_whatsapp_numbers in refl

last_true : (a b c d e : Bool) → e ≡ true → (if a then true else b || c || d || e) ≡ true
last_true a b c d e h = ground arith

-- The numbers that are allowed after a list of them was set hold each number of the list.
contains-set_extra :
    (number : String) (numbers : List String) (store : Store)
    → contains numbers number ≡ true
    → (normalize_phone number == "") ≡ false
    → contains
        (get_allowed_whatsapp_reply_numbers (set_extra_allowed_whatsapp_numbers numbers store).1)
        (normalize_phone number)
      ≡ true
unfolding get_allowed_whatsapp_reply_numbers
contains-set_extra number numbers store h filled =
    let q = normalize_phone number in
    let store' = (set_extra_allowed_whatsapp_numbers numbers store).1 in
    let owner = get_owner_whatsapp_number store in
    let extras = distinct owner [] (map strip numbers) in
    let found : (q == owner || contains [] q || contains extras q) ≡ true =
      subst (λ n. (n == owner || contains [] n || contains extras n) ≡ true)
        (normalize-strip number)
        (contains-distinct owner (strip number) [] (map strip numbers)
          (rw (normalize-strip number) filled) (contains-map numbers number h)) in
    let bridge = get_bridge_whatsapp_phone store' in
    let listed : contains (owner ∷ bridge ∷ extras) q ≡ true = ground (arith, eq_swap owner q) in
    let kept = contains-once q [] (owner ∷ bridge ∷ extras) filled listed in
    rw (get_owner-set_extra numbers store, get_extra_stored numbers store) kept

-- Whatever the files held and whatever the chat: after a list of allowed numbers was set, a message
-- from each of them is answered, unless the number has no digit.
pub is_owner-set_extra :
    (number chat_id : String) (raw_item : Option (Option (Dict Value))) (numbers : List String)
    (store : Store)
    → contains numbers number ≡ true
    → (normalize_phone number == "") ≡ false
    → is_owner_whatsapp_number number chat_id raw_item
        (set_extra_allowed_whatsapp_numbers numbers store).1
      ≡ true
unfolding is_owner_whatsapp_number
is_owner-set_extra number chat_id raw_item numbers store h filled =
    let store' = (set_extra_allowed_whatsapp_numbers numbers store).1 in
    let answered =
      is_allowed-contains number (get_allowed_whatsapp_reply_numbers store')
        (allowed-IsNumber store')
      ∙ contains-set_extra number numbers store h filled in
    last_true (is_nobody (get_allowed_whatsapp_reply_numbers store'))
      (is_known_lid number chat_id (get_allowed_whatsapp_reply_numbers store')
        (load_linked_owner store').lid_phones)
      (is_key_allowed (get_allowed_whatsapp_reply_numbers store')
        (str_or (load_linked_owner store').owner_jid) chat_id (key_of raw_item))
      _ _ answered
