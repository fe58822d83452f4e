-- ===== src/Numbers.antt =====
-- Phone numbers of WhatsApp, and whose messages are answered: channels/whatsapp/numbers.py of
-- src/tempa.
mod Examples
pub mod Allowed
pub mod Answers
pub mod Delivery
pub mod Lids
pub mod Normal
pub mod Owner
pub mod Phone
pub mod RoundTrip
