-- ===== src/Watchdog/Polls.antt =====
-- What watchdog_poll reads of what the gate sends to its watchdog (Watchdog.cpp and service_gate.c).
use myprogram.Prelude.{
  ℕ, ◌^◌, ◌<◌, ◌≡◌, ◌≢◌, refl, ap, ◌∙◌, some, List, [], ◌∷◌, ◌++◌, append_assoc, ok, ==_ne,
}
use myprogram.CText.{strtol, skip_space, sign, digits_value, print_int}
use myprogram.CText.Decimal.{strtol-print_int, Plain, print_int-Plain}
use myprogram.Gate.{Gate, Connection, Action, send, text, forwarded}
use myprogram.Gate.Socket.{sub_type, report}
use myprogram.Watchdog.{ptype_text, ptype_client, first_word, watchdog_poll}

first_word-Plain : (word rest : List ℕ) → Plain word → first_word (word ++ b' ' ∷ rest) ≡ ok word
unfolding first_word
first_word-Plain [] rest p = refl
first_word-Plain (c ∷ word) rest (no_end, no_space, p) =
    rw (no_end, no_space, first_word-Plain word rest p) refl

-- The bytes of a message to a service.
abbrev pub sent_bytes : Action → List ℕ
sent_bytes (send source destination tag session bytes) = bytes
sent_bytes action = []

poll-print_int :
    (id : ℕ) (rest : List ℕ)
    → id < 2 ^ 32
    → watchdog_poll ptype_client (print_int id ++ b' ' ∷ rest) ≡ ok (some id)
unfolding watchdog_poll
poll-print_int id rest small =
    rw (first_word-Plain (print_int id) rest (print_int-Plain id), strtol-print_int id small) refl

-- Without a broker and an agent, watchdog_poll reads the connection's socket from each packet that
-- the gate forwards, whatever memory lies behind it. From each report of a gate that has a watchdog
-- it reads 0, whatever the report tells, since the type in front of its text begins with a 0.
pub watchdog_poll-forwarded :
    (g : Gate) (c : Connection) (packet line more : List ℕ)
    → g.broker ≡ 0
    → c.agent ≡ 0
    → c.id < 2 ^ 32
    → g.watchdog ≢ 0
    → (watchdog_poll ptype_client (sent_bytes (forwarded g c packet) ++ more) ≡ ok (some c.id))
      × (bytes : List ℕ) × (report g line ≡ send 0 g.watchdog text 0 bytes ∷ [])
      × (watchdog_poll ptype_text (bytes ++ more) ≡ ok (some 0))
unfolding report watchdog_poll first_word strtol skip_space sign digits_value
watchdog_poll-forwarded g c packet line more broker agent small there = (
  rw (broker, agent)
      (ap (watchdog_poll ptype_client) (append_assoc (print_int c.id) (b' ' ∷ packet) more)
        ∙ poll-print_int c.id (packet ++ more) small),
  sub_type ++ line,
  rw (==_ne g.watchdog 0 there) refl,
  refl,
)
