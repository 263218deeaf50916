-- ===== src/Gateway/DaemonArgs/Spelling.antt =====
-- Settings that are spelled as arguments, and how they are read.
use athena_flow_cli.Common.{
  append_assoc, ℕ, ℤ, pos, Option, none, some, List, [], ◌∷◌, ◌++◌, Bool, true, false, ◌≡◌, refl,
  ◌∙◌, All, fold_left, nat_eq,
}
use athena_flow_cli.Common.Text.{Text, codes}
use native.Mathlib.Decide.{ℕ_discrete}
use athena_flow_cli.Gateway.DaemonArgs.{
  DaemonError, error, GatewayDaemonArgs, TlsFlagKey, tls_cert, tls_key, ok, no_args, flag_name,
  flag_prefix, read_arg, usable, set_path, set_grace, take_arg, parse_loop, check_pair,
  parse_gateway_daemon_args,
}

-- A setting, and whether its value is an argument of its own.
pub data Item : Type 0 where
  silent_item : Item
  insecure_item : Item
  bind_item : Bool → Text → Item
  grace_item : Bool → Text → ℕ → Item
  tls_item : Bool → TlsFlagKey → Text → Item

abbrev pub spaced : Bool → Text → Text → Text → List Text
spaced true flag prefix v = flag ∷ v ∷ []
spaced false flag prefix v = (prefix ++ v) ∷ []

abbrev pub words : Item → List Text
words silent_item = codes "--silent" ∷ []
words insecure_item = codes "--insecure" ∷ []
words (bind_item s v) = spaced s (codes "--bind") (codes "--bind=") v
words (grace_item s v n) = spaced s (codes "--grace-period-ms") (codes "--grace-period-ms=") v
words (tls_item s key v) = spaced s (flag_name key) (flag_prefix key) v

abbrev pub all_words : List Item → List Text
all_words [] = []
all_words (i ∷ is) = words i ++ all_words is

abbrev pub apply : GatewayDaemonArgs → Item → GatewayDaemonArgs
apply p silent_item = record p { silent = true }
apply p insecure_item = record p { insecure = true }
apply p (bind_item s v) = record p { bind = some v }
apply p (grace_item s v n) = set_grace p n
apply p (tls_item s key v) = set_path key v p

-- A value that stands by itself must not look like an option.
abbrev pub Stands : Bool → Text → Type 0
Stands true v = usable v ≡ true
Stands false v = Unit

-- The argument that comes next.
abbrev pub head : List Text → Option Text
head [] = none
head (v ∷ rest) = some v

module _ (number : Text → Option ℤ) where
  abbrev pub Fits : Item → Type 0
  Fits silent_item = Unit
  Fits insecure_item = Unit
  Fits (bind_item s v) = Stands s v
  Fits (grace_item s v n) = Stands s v × (number v ≡ some (pos n))
  Fits (tls_item s key v) = Stands s v

  step-joined :
      (p q : GatewayDaemonArgs) (w : Text) (rest : List Text)
      → ((next : Option Text) → take_arg number p w next (read_arg w) ≡ ok (q, false))
      → parse_loop number p (w ∷ rest) ≡ parse_loop number q rest
  unfolding parse_loop
  step-joined p q w [] h = rw (h none) refl
  step-joined p q w (v ∷ rest) h = rw (h (some v), parse_loop) refl

  step-spaced :
      (p q : GatewayDaemonArgs) (w v : Text) (rest : List Text)
      → take_arg number p w (some v) (read_arg w) ≡ ok (q, true)
      → parse_loop number p (w ∷ v ∷ rest) ≡ parse_loop number q rest
  unfolding parse_loop
  step-spaced p q w v rest h = rw (h, parse_loop) refl

  parse_loop-words :
      (i : Item) (p : GatewayDaemonArgs) (rest : List Text)
      → Fits i
      → parse_loop number p (words i ++ rest) ≡ parse_loop number (apply p i) rest
  unfolding ℕ_discrete
  parse_loop-words silent_item p rest h = step-joined p _ _ rest (λ next. refl)
  parse_loop-words insecure_item p rest h = step-joined p _ _ rest (λ next. refl)
  parse_loop-words (bind_item true v) p rest h = step-spaced p _ _ v rest (rw h refl)
  parse_loop-words (bind_item false v) p rest h = step-joined p _ _ rest (λ next. refl)
  parse_loop-words (grace_item true v n) p rest (h, k) = step-spaced p _ _ v rest (rw (h, k) refl)
  parse_loop-words (grace_item false v n) p rest (h, k) = step-joined p _ _ rest (λ next. rw k refl)
  parse_loop-words (tls_item true tls_cert v) p rest h = step-spaced p _ _ v rest (rw h refl)
  parse_loop-words (tls_item true tls_key v) p rest h = step-spaced p _ _ v rest (rw h refl)
  parse_loop-words (tls_item false tls_cert v) p rest h = step-joined p _ _ rest (λ next. refl)
  parse_loop-words (tls_item false tls_key v) p rest h = step-joined p _ _ rest (λ next. refl)

  parse_loop-all_words :
      (is : List Item) (p : GatewayDaemonArgs)
      → All Fits is
      → parse_loop number p (all_words is) ≡ ok (fold_left apply p is)
  unfolding parse_loop
  parse_loop-all_words [] p h = refl
  parse_loop-all_words (i ∷ is) p (h, hs) =
      parse_loop-words i p (all_words is) h ∙ parse_loop-all_words is (apply p i) hs

  pub parse_gateway_daemon_args-all_words :
      (is : List Item)
      → All Fits is
      → parse_gateway_daemon_args number (all_words is) ≡ check_pair (fold_left apply no_args is)
  unfolding parse_gateway_daemon_args
  parse_gateway_daemon_args-all_words is h = rw (parse_loop-all_words is no_args h) refl

  parse_loop-error :
      (p : GatewayDaemonArgs) (arg : Text) (rest : List Text) (e : DaemonError)
      → take_arg number p arg (head rest) (read_arg arg) ≡ error e
      → parse_loop number p (arg ∷ rest) ≡ error e
  unfolding parse_loop
  parse_loop-error p arg [] e h = rw (h, parse_loop) refl
  parse_loop-error p arg (v ∷ rest) e h = rw (h, parse_loop) refl

  parse_loop-all_words_error :
      (is : List Item) (p : GatewayDaemonArgs) (arg : Text) (rest : List Text) (e : DaemonError)
      → All Fits is
      → take_arg number (fold_left apply p is) arg (head rest) (read_arg arg) ≡ error e
      → parse_loop number p (all_words is ++ arg ∷ rest) ≡ error e
  parse_loop-all_words_error [] p arg rest e h k = parse_loop-error p arg rest e k
  parse_loop-all_words_error (i ∷ is) p arg rest e (h, hs) k =
      rw (append_assoc (words i) (all_words is) (arg ∷ rest)) (
        parse_loop-words i p (all_words is ++ arg ∷ rest) h
        ∙ parse_loop-all_words_error is (apply p i) arg rest e hs k)

  -- The first faulty argument decides the error: when settings are spelled as above, and the argument
  -- after them is refused with an error (an unknown option, a value that is missing, empty or an option,
  -- or a grace period that is not a natural number), then the parser gives that error, whatever follows.
  pub parse_gateway_daemon_args-error :
      (is : List Item) (arg : Text) (rest : List Text) (e : DaemonError)
      → All Fits is
      → take_arg number (fold_left apply no_args is) arg (head rest) (read_arg arg) ≡ error e
      → parse_gateway_daemon_args number (all_words is ++ arg ∷ rest) ≡ error e
  unfolding parse_gateway_daemon_args
  parse_gateway_daemon_args-error is arg rest e h k =
      rw (parse_loop-all_words_error is no_args arg rest e h k) refl
