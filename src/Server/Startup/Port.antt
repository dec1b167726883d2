-- ===== src/Server/Startup/Port.antt =====
-- What is a port: the digits of a number below 2 ^ 16.
use Prim.Native.Char.{Char}
use Prim.Native.String.{String}
use skialith.Common.{
  ℕ, zero, suc, ◌+◌, ◌*◌, ◌^◌, ◌≤◌, ◌<◌, ◌≡◌, refl, ap, ◌∙◌, inl, inr, Bool, true, false, ◌&&◌,
  Option, none, some, ltb, if◌then◌else◌, Bool-cases, Option-cases, List, err, arith,
}
use skialith.Server.Startup.{
  is_digit, digit_of, checked, digit_added, parse_digits, parse_unsigned, without_plus, parse_u16,
  Surroundings, Outcome, connected, with_store, panicked, main,
}
use skialith.License.{Keys}
use skialith.Lock.{KeyValue}
use skialith.Trace.Table.{TraceTable}
use skialith.Store.SaveEvent.{Services}
use skialith.Server.{AppState}
use skialith.Server.Requests.{Request}

abbrev pub digits : String → ℕ
digits String.[] = 0
digits (String.◌∷◌ c s) = suc (digits s)

abbrev pub all_digits : String → Bool
all_digits String.[] = true
all_digits (String.◌∷◌ c s) = is_digit c && all_digits s

-- The number that decimal digits write, by their places.
abbrev pub decimal : String → ℕ
decimal String.[] = 0
decimal (String.◌∷◌ c s) = digit_of c * 10 ^ digits s + decimal s

abbrev pub not_empty : String → Bool
not_empty String.[] = false
not_empty (String.◌∷◌ c s) = true

pow_step : (k : ℕ) → 10 ^ suc k ≡ 10 * 10 ^ k
pow_step k = grind arith

pow_positive : (k : ℕ) → 1 ≤ 10 ^ k
pow_positive zero = omega arith
pow_positive (suc k) = omega (arith, pow_step k, pow_positive k)

shifted : (n d p r : ℕ) → n * (10 * p) + (d * p + r) ≡ (n * 10 + d) * p + r
shifted n d p r = grind arith

next_place : (n d k r : ℕ) → n * 10 ^ suc k + (d * 10 ^ k + r) ≡ (n * 10 + d) * 10 ^ k + r
next_place n d k r = rw (pow_step k) (shifted n d (10 ^ k) r)

le-mul-pow : (n k : ℕ) → n ≤ n * 10 ^ k
le-mul-pow n k = grind (arith, pow_positive k)

-- The answer of the loop: the whole number, unless a digit or the bound fails.
abbrev pub bounded : Bool → ℕ → Option ℕ
bounded valid n = if valid && ltb n 65536 then some n else none

added : (n d : ℕ) → n * 10 + d < 65536 → digit_added (checked (n * 10)) d ≡ some (n * 10 + d)
added n d h = ground arith

overflown : (n d : ℕ) → 65536 ≤ n * 10 + d → digit_added (checked (n * 10)) d ≡ none
overflown n d h = ground arith

parse_digits-not_digit :
    (n : ℕ) (c : Char) (s : String) → is_digit c ≡ false → parse_digits n (String.◌∷◌ c s) ≡ none
unfolding parse_digits
parse_digits-not_digit n c s h = rw (h, parse_digits) refl

parse_digits-next :
    (n : ℕ) (c : Char) (s : String)
    → is_digit c ≡ true
    → n * 10 + digit_of c < 65536
    → parse_digits n (String.◌∷◌ c s) ≡ parse_digits (n * 10 + digit_of c) s
unfolding parse_digits
parse_digits-next n c s h small = rw (h, parse_digits) (rw (added n (digit_of c) small) refl)

parse_digits_over :
    (n : ℕ) (c : Char) (s : String)
    → is_digit c ≡ true
    → 65536 ≤ n * 10 + digit_of c
    → parse_digits n (String.◌∷◌ c s) ≡ none
unfolding parse_digits
parse_digits_over n c s h big = rw (h, parse_digits) (rw (overflown n (digit_of c) big) refl)

parse_digits_lem :
    (n : ℕ) (s : String)
    → n < 65536
    → parse_digits n s ≡ bounded (all_digits s) (n * 10 ^ digits s + decimal s)
unfolding parse_digits
parse_digits_lem n String.[] h = ground arith
parse_digits_lem n (String.◌∷◌ c s) h = elim (Bool-cases (is_digit c)) [
  | inr other ↦ parse_digits-not_digit n c s other ∙ rw other refl
  | inl digit ↦ elim (Bool-cases (ltb (n * 10 + digit_of c) 65536)) [
    | inl small ↦
        parse_digits-next n c s digit (ground arith)
        ∙ parse_digits_lem (n * 10 + digit_of c) s (ground arith)
        ∙ rw (digit, next_place n (digit_of c) (digits s) (decimal s)) refl
    | inr big ↦
        parse_digits_over n c s digit (ground arith)
        ∙ rw (digit, next_place n (digit_of c) (digits s) (decimal s))
            (ground (arith, le-mul-pow (n * 10 + digit_of c) (digits s)))
  ]
]

unsigned : (s : String) → parse_unsigned s ≡ bounded (not_empty s && all_digits s) (decimal s)
unsigned String.[] = refl
unsigned (String.◌∷◌ c s) =
    parse_digits_lem 0 (String.◌∷◌ c s) (omega arith)
    ∙ ap (bounded (all_digits (String.◌∷◌ c s))) (omega arith)

parse_u16_lem :
    (text : String)
    → let s = without_plus text in
      parse_u16 text ≡ bounded (not_empty s && all_digits s) (decimal s)
unfolding parse_u16
parse_u16_lem text = unsigned (without_plus text)

-- The port that a text means: after one optional `+`, digits, at least one, of a number below 2 ^ 16.
abbrev pub meant : String → Option ℕ
meant text = let s = without_plus text in bounded (not_empty s && all_digits s) (decimal s)

module _ (v : Services) (keys : Keys) (k : KeyValue) (t : TraceTable v.json.Value)
    (Tx Nats Io : Type 0) where
  -- How `main` goes on from the variable of the port.
  pub data ReadsPort (fuel : ℕ) (w : Surroundings v keys k t Tx Nats Io)
      (requests : List (Request v.json.Value)) (kv : k.Kv) (app : AppState v t Nats)
      (tidb_url : String) (out : Outcome v keys k t Tx Nats Io × k.Kv) : Type 0 where
    by_default :
        w.vars "SERVER_PORT" ≡ none
        → (let c = connected v keys k t Tx Nats Io w tidb_url kv in
            out ≡ (with_store v keys k t Tx Nats Io fuel w requests 8080 app c.0, c.1))
        → ReadsPort fuel w requests kv app tidb_url out
    given :
        (text : String) (p : ℕ)
        → w.vars "SERVER_PORT" ≡ some text
        → meant text ≡ some p
        → (let c = connected v keys k t Tx Nats Io w tidb_url kv in
            out ≡ (with_store v keys k t Tx Nats Io fuel w requests p app c.0, c.1))
        → ReadsPort fuel w requests kv app tidb_url out
    refused :
        (text : String)
        → w.vars "SERVER_PORT" ≡ some text
        → meant text ≡ none
        → out ≡ (err (panicked "SERVER_PORT must be a valid port number"), kv)
        → ReadsPort fuel w requests kv app tidb_url out

  -- The server reads its port as it is meant, with no overflow on the way: 8080 where the variable is
  -- not set; the number that the digits of its text write, however many leading zeros they have, after
  -- one optional `+`; and with any other text, no digits or a number from 2 ^ 16 on, it panics before
  -- it connects to anything. The variable of the database is set.
  pub main-ReadsPort :
      (fuel : ℕ) (w : Surroundings v keys k t Tx Nats Io) (requests : List (Request v.json.Value))
      (kv : k.Kv) (app : AppState v t Nats) (tidb_url : String)
      → w.vars "TIDB_URL" ≡ some tidb_url
      → ReadsPort fuel w requests kv app tidb_url
          (main v keys k t Tx Nats Io fuel w requests kv app)
  unfolding main
  main-ReadsPort fuel w requests kv app tidb_url url =
      rw url (elim (Option-cases (w.vars "SERVER_PORT")) [
        | inl unset ↦ by_default unset (rw (unset, parse_u16_lem "8080") refl)
        | inr (text, set) ↦ elim (Option-cases (meant text)) [
          | inl bad ↦ refused text set bad (rw (set, parse_u16_lem text, bad) refl)
          | inr (p, good) ↦ given text p set good (rw (set, parse_u16_lem text, good) refl)
        ]
      ])
