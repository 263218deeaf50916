-- ===== src/Gateway/DaemonArgs.antt =====
-- src/gateway/entryArgs.ts: the options of the gateway daemon. A text is its code units. `Number` of the
-- host is the parameter `number`: the integer that a text denotes, if it denotes one.
pub mod Spelling
pub mod Accepted
use athena_flow_cli.Common.{
  ℕ, ℤ, pos, negsuc, Option, none, some, List, [], ◌∷◌, ◌++◌, if◌then◌else◌, Bool, true, false,
  or_else, not, ◌||◌, ◌&&◌,
}
use athena_flow_cli.Common.Text.{Text, codes, same_text, text_starts_with, after_prefix}
use mathlib.Core.Option.{map}

pub record GatewayDaemonArgs : Type 0 where
  pub silent : Bool
  pub bind : Option Text
  pub insecure : Bool
  pub grace_period_ms : Option ℕ
  pub tls_cert_path : Option Text
  pub tls_key_path : Option Text

pub data TlsFlagKey : Type 0 where
  tls_cert : TlsFlagKey
  tls_key : TlsFlagKey

pub data DaemonError : Type 0 where
  unknown_option : Text → DaemonError
  requires_value : Text → DaemonError
  bad_grace_period : DaemonError
  tls_unpaired : DaemonError

pub data Parsed (A : Type 0) : Type 0 where
  error : DaemonError → Parsed A
  ok : A → Parsed A

-- How one argument reads: `_next` takes its value from the next argument, `_is` holds it.
pub data Arg : Type 0 where
  silent_arg : Arg
  insecure_arg : Arg
  bind_next : Arg
  bind_is : Text → Arg
  grace_next : Arg
  grace_is : Text → Arg
  tls_next : TlsFlagKey → Arg
  tls_is : TlsFlagKey → Text → Arg

abbrev pub no_args : GatewayDaemonArgs
no_args = record {
  silent = false;
  bind = none;
  insecure = false;
  grace_period_ms = none;
  tls_cert_path = none;
  tls_key_path = none;
}

abbrev pub exact : Text → Arg → Text → Option Arg
exact word a arg = if same_text arg word then some a else none

abbrev pub joined : Text → (Text → Arg) → Text → Option Arg
joined prefix a arg = map a (after_prefix prefix arg)

abbrev pub first : Option Arg → Option Arg → Option Arg
first none b = b
first (some a) b = some a

abbrev pub flag_name : TlsFlagKey → Text
flag_name tls_cert = codes "--tls-cert"
flag_name tls_key = codes "--tls-key"

abbrev pub flag_prefix : TlsFlagKey → Text
flag_prefix tls_cert = codes "--tls-cert="
flag_prefix tls_key = codes "--tls-key="

-- One turn of the loop of `matchPathFlag`.
abbrev pub match_path_flag : TlsFlagKey → Text → Option Arg
match_path_flag key arg =
    first (exact (flag_name key) (tls_next key) arg) (joined (flag_prefix key) (tls_is key) arg)

-- The tests of the loop, in their order.
abbrev pub read_arg : Text → Option Arg
read_arg arg = first (exact (codes "--silent") silent_arg arg) (
    first (exact (codes "--insecure") insecure_arg arg) (
      first (exact (codes "--bind") bind_next arg) (
        first (joined (codes "--bind=") bind_is arg) (
          first (exact (codes "--grace-period-ms") grace_next arg) (
            first (joined (codes "--grace-period-ms=") grace_is arg)
              (first (match_path_flag tls_cert arg) (match_path_flag tls_key arg)))))))

-- A value that is missing, empty or an option is refused.
abbrev pub usable : Text → Bool
usable [] = false
usable (c ∷ v) = not (text_starts_with (c ∷ v) (codes "--"))

abbrev pub require_value : Text → Option Text → Parsed Text
require_value flag none = error (requires_value flag)
require_value flag (some v) = if usable v then ok v else error (requires_value flag)

abbrev pub then_parsed : {A B : Type 0} → Parsed A → (A → Parsed B) → Parsed B
then_parsed (error e) f = error e
then_parsed (ok a) f = f a

abbrev pub grace_of : Option ℤ → Parsed ℕ
grace_of none = error bad_grace_period
grace_of (some (negsuc n)) = error bad_grace_period
grace_of (some (pos n)) = ok n

abbrev pub set_path : TlsFlagKey → Text → GatewayDaemonArgs → GatewayDaemonArgs
set_path tls_cert v p = record p { tls_cert_path = some v }
set_path tls_key v p = record p { tls_key_path = some v }

-- An empty path counts as none.
abbrev pub given : Option Text → Bool
given none = false
given (some []) = false
given (some (c ∷ v)) = true

abbrev pub check_pair : GatewayDaemonArgs → Parsed GatewayDaemonArgs
check_pair p =
    if (given p.tls_cert_path && not (given p.tls_key_path))
      || (not (given p.tls_cert_path) && given p.tls_key_path)
    then error tls_unpaired
    else ok p

abbrev pub set_grace : GatewayDaemonArgs → ℕ → GatewayDaemonArgs
set_grace p n = record p { grace_period_ms = some n }

module _ (number : Text → Option ℤ) where
  abbrev pub parse_grace_period : Text → Parsed ℕ
  parse_grace_period value = grace_of (number value)

  -- One turn of the loop: the new state, and whether the next argument is used up.
  abbrev pub take_arg :
      GatewayDaemonArgs → Text → Option Text → Option Arg → Parsed (GatewayDaemonArgs × Bool)
  take_arg p arg next none = error (unknown_option arg)
  take_arg p arg next (some silent_arg) = ok (record p { silent = true }, false)
  take_arg p arg next (some insecure_arg) = ok (record p { insecure = true }, false)
  take_arg p arg next (some bind_next) =
      then_parsed (require_value (codes "--bind") next) (λ v. ok (record p { bind = some v }, true))
  take_arg p arg next (some (bind_is v)) = ok (record p { bind = some v }, false)
  take_arg p arg next (some grace_next) =
      then_parsed (require_value (codes "--grace-period-ms") next)
        (λ v. then_parsed (parse_grace_period v) (λ n. ok (set_grace p n, true)))
  take_arg p arg next (some (grace_is v)) =
      then_parsed (parse_grace_period v) (λ n. ok (set_grace p n, false))
  take_arg p arg next (some (tls_next key)) =
      then_parsed (require_value (flag_name key) next) (λ v. ok (set_path key v p, true))
  take_arg p arg next (some (tls_is key v)) = ok (set_path key v p, false)

  unfoldable pub parse_loop : GatewayDaemonArgs → List Text → Parsed GatewayDaemonArgs
  parse_loop p [] = ok p
  parse_loop p (arg ∷ []) = then_parsed (take_arg p arg none (read_arg arg)) (λ (q, used). ok q)
  parse_loop p (arg ∷ next ∷ rest) = elim (take_arg p arg (some next) (read_arg arg)) [
    | error e ↦ error e
    | ok (q, true) ↦ parse_loop q rest
    | ok (q, false) ↦ parse_loop q (next ∷ rest)
  ]

  unfoldable pub parse_gateway_daemon_args : List Text → Parsed GatewayDaemonArgs
  unfolding parse_loop
  parse_gateway_daemon_args argv = then_parsed (parse_loop no_args argv) check_pair
