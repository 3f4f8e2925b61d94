-- ===== src/Tests/Redis.antt =====
-- The redis storage over a server that is a dict of texts.
use Prim.Native.Char.{code}
use chattice.Base.{
  ℕ, suc, zero, String, ◌≡◌, refl, ap, Bool, true, false, Option, none, some, List, [], ◌∷◌, arith,
  if◌then◌else◌, not, nat_beq, eq_iff, inl, inr,
}
use chattice.Base.Eq.{string_eq, option_eq, ◌==◌}
use chattice.Base.Text.{digit_char}
use chattice.Dict
use chattice.Dict.{Dict}
use chattice.Idempotency.Contract.{claimed, first}
use chattice.Idempotency.Memory.{Claim}
use chattice.Idempotency.Redis.{Server, Round, returned, lease_claim}
use chattice.Idempotency.Redis.Steps.{IsServer, claim_op}
use chattice.Idempotency.Redis.Linear.{perform, HasQuiet, IsLinear, perform-IsLinear}

abbrev write_flag : Bool → String → String
write_flag true s = String.◌∷◌ (digit_char 1) s
write_flag false s = String.◌∷◌ (digit_char 0) s

abbrev write_lease : ℕ → String → String
write_lease zero s = String.◌∷◌ (digit_char 0) s
write_lease (suc n) s = String.◌∷◌ (digit_char 1) (write_lease n s)

abbrev read_lease : String → Option (ℕ × String)
read_lease String.[] = none
read_lease (String.◌∷◌ c s) =
    if nat_beq (code c) 49
    then elim (read_lease s) [ none ↦ none | some (n, rest) ↦ some (suc n, rest) ]
    else some (0, s)

abbrev read_claim : Bool → Option (ℕ × String) → Option Claim
read_claim flag none = none
read_claim flag (some (n, owner)) =
    some (record { owner = owner; lease_until = n; completed = flag })

abbrev read_text : String → Option Claim
read_text String.[] = none
read_text (String.◌∷◌ c s) = read_claim (nat_beq (code c) 49) (read_lease s)

read-write_lease : (n : ℕ) (s : String) → read_lease (write_lease n s) ≡ some (n, s)
read-write_lease zero s = refl
read-write_lease (suc n) s = rw (read-write_lease n s) refl

read-write_text :
    (c : Claim) → read_text (write_flag c.completed (write_lease c.lease_until c.owner)) ≡ some c
read-write_text c = go c.completed c.lease_until c.owner
  where
    go :
        (flag : Bool) (n : ℕ) (owner : String)
        → read_text (write_flag flag (write_lease n owner))
          ≡ some (record { owner = owner; lease_until = n; completed = flag })
    go true n owner = ap (read_claim true) (read-write_lease n owner)
    go false n owner = ap (read_claim false) (read-write_lease n owner)

abbrev dicts : Server
dicts = record {
  State = Dict String String;
  get = λ s key. Dict.get s key;
  set = λ s key text px. Dict.put s key text;
  delete = λ s key. Dict.remove s key;
  changed = λ watched now key. not (Dict.get now key == Dict.get watched key);
  encode = λ c. write_flag c.completed (write_lease c.lease_until c.owner);
  decode = read_text;
}

dicts-IsServer : IsServer dicts
dicts-IsServer = record {
  get-set_self = λ s key text px. Dict.get-put_self s key text;
  get-set_ne = λ s key j text px ne. ground (arith, ne, eq_iff key j, Dict.get-put s key j text);
  get-delete_self = λ s key. Dict.get-remove_self s key;
  get-delete_ne = λ s key j ne. ground (arith, ne, eq_iff key j, Dict.get-remove s key j);
  unchanged = λ s t key h.
      ((option_eq {A = String} ⦃e = string_eq⦄).beq_iff (Dict.get t key) (Dict.get s key)).0
        (ground (arith, h));
  decode-encode = read-write_text;
}

-- A claim of "a" whose lease has run out; another client takes a look, and touches another key meanwhile.
abbrev start : Dict String String
start = ("m1", dicts.encode (lease_claim "a" 3)) ∷ []

abbrev rounds : List (Round dicts)
rounds =
    (record {
      before = λ s. s;
      meanwhile = λ s. Dict.put s "m1" (dicts.encode (lease_claim "a" 4));
      now = 5;
    })
    ∷ (record { before = λ s. s; meanwhile = λ s. Dict.put s "m2" "x"; now = 6 })
    ∷ []

rounds-HasQuiet : HasQuiet dicts "m1" start rounds
unfolding Dict.get Dict.put
rounds-HasQuiet = inr (inl refl)

perform-IsLinear_example :
    IsLinear dicts
      (claim_op "b" 10 5)
      "m1"
      start
      rounds
      (perform dicts (claim_op "b" 10 5) "m1" rounds start)
perform-IsLinear_example =
    perform-IsLinear dicts dicts-IsServer (claim_op "b" 10 5) "m1" rounds start rounds-HasQuiet

taken_over : (perform dicts (claim_op "b" 10 5) "m1" rounds start).0 ≡ returned (claimed first)
unfolding perform Dict.get Dict.put
taken_over = refl
