-- ===== src/Numbers/Examples.antt =====
-- An owner, two more numbers, and a hidden identifier.
use tempa.Base.{String, true, false, none, List, [], ◌∷◌, ◌==◌, ◌≡◌, refl, contains}
use tempa.Base.Text.{strip, keep}
use tempa.Base.Value.{str_or}
use tempa.Numbers.Phone.{normalize_phone, digits_of, is_digit}
use tempa.Numbers.Allowed.{
  Store, once, distinct, get_allowed_whatsapp_reply_numbers, set_extra_allowed_whatsapp_numbers,
  get_extra_allowed_whatsapp_numbers, get_owner_whatsapp_number, get_bridge_whatsapp_phone,
}
use tempa.Numbers.Answers.{is_owner-contains, is_owner-set_extra}
use tempa.Numbers.Delivery.{remember_lid_phone, user_of}
use tempa.Numbers.Lids.{is_owner-remember}
use tempa.Numbers.Owner.{is_owner_whatsapp_number, is_nobody, before}
use tempa.Numbers.RoundTrip.{get_extra-set_extra}

abbrev owned : Store
owned = record {
  whatsapp_owner_number = "0343 1";
  linked_owner = none;
  default_number = none;
  allowed_extra = none;
}

abbrev friends : List String
friends = "+92 5" ∷ "0343-1" ∷ "05" ∷ "7" ∷ []

get_extra-set_extra_example :
    get_extra_allowed_whatsapp_numbers (set_extra_allowed_whatsapp_numbers friends owned).1
    ≡ (set_extra_allowed_whatsapp_numbers friends owned).0
get_extra-set_extra_example = get_extra-set_extra friends owned

allowed_owner : get_allowed_whatsapp_reply_numbers owned ≡ "923431" ∷ []
unfolding get_allowed_whatsapp_reply_numbers get_owner_whatsapp_number get_bridge_whatsapp_phone
    get_extra_allowed_whatsapp_numbers once distinct normalize_phone strip keep is_digit str_or
allowed_owner = refl

somebody : is_nobody (get_allowed_whatsapp_reply_numbers owned) ≡ false
somebody = rw allowed_owner refl

is_owner-contains_example :
    is_owner_whatsapp_number "+92 3431" "923431@s.whatsapp.net" none owned
    ≡ contains (get_allowed_whatsapp_reply_numbers owned) (normalize_phone "+92 3431")
is_owner-contains_example = is_owner-contains "+92 3431" "923431@s.whatsapp.net" owned refl somebody

digit_seven : (normalize_phone "7" == "") ≡ false
unfolding normalize_phone strip keep is_digit
digit_seven = refl

is_owner-set_extra_example :
    is_owner_whatsapp_number "7" "" none (set_extra_allowed_whatsapp_numbers friends owned).1 ≡ true
is_owner-set_extra_example = is_owner-set_extra "7" "" none friends owned refl digit_seven

lid_digits : (digits_of (user_of "88@lid") == "") ≡ false
unfolding before keep is_digit
lid_digits = refl

lid_plain : user_of "88@lid" ≡ before b'@' "88@lid"
unfolding before
lid_plain = refl

owner_allowed : contains (get_allowed_whatsapp_reply_numbers owned) (normalize_phone "03431") ≡ true
unfolding normalize_phone strip keep is_digit
owner_allowed = rw allowed_owner refl

is_owner-remember_example :
    is_owner_whatsapp_number "88" "88@lid" none (remember_lid_phone "88@lid" "03431" owned) ≡ true
is_owner-remember_example =
    is_owner-remember "88@lid" "03431" "88" none owned lid_digits lid_plain owner_allowed
