-- ===== src/Gateway/DaemonArgs/Accepted.antt =====
-- What an accepted argument list consists of.
use athena_flow_cli.Common.{
  not, ◌&&◌, ◌||◌, ℕ, ℤ, pos, negsuc, Option, none, some, List, [], ◌∷◌, ◌++◌, if◌then◌else◌, Bool,
  true, false, ◌≡◌, refl, ap, sym, subst, ◌∙◌, arith, All, fold_left, Bool-cases, Option-cases, inl,
  inr, nat_eq, ◌⊎◌,
}
use athena_flow_cli.Common.Text.{Text, codes, same_text, after_prefix}
use athena_flow_cli.Gateway.DaemonArgs.{
  GatewayDaemonArgs, TlsFlagKey, tls_cert, tls_key, Parsed, error, ok, DaemonError, tls_unpaired,
  Arg, silent_arg, insecure_arg, bind_next, bind_is, grace_next, grace_is, tls_next, tls_is,
  no_args, exact, joined, first, flag_name, flag_prefix, match_path_flag, read_arg, usable,
  then_parsed, grace_of, set_grace, take_arg, parse_loop, check_pair, given,
  parse_gateway_daemon_args,
}
use athena_flow_cli.Gateway.DaemonArgs.Spelling.{
  Item, silent_item, insecure_item, bind_item, grace_item, tls_item, words, all_words, apply, Fits,
}

same_text-eq : (s t : Text) → same_text s t ≡ true → s ≡ t
same_text-eq [] [] h = refl
same_text-eq [] (b ∷ t) h = cc
same_text-eq (a ∷ s) [] h = cc
same_text-eq (a ∷ s) (b ∷ t) h = ground (arith, same_text-eq s t)

after_prefix-eq : (p s v : Text) → after_prefix p s ≡ some v → s ≡ p ++ v
after_prefix-eq [] s v h = cc
after_prefix-eq (c ∷ p) [] v h = cc
after_prefix-eq (c ∷ p) (d ∷ s) v h = ground (arith, after_prefix-eq p s v)

-- The argument that reads as `a`.
abbrev spelled : Arg → Text
spelled silent_arg = codes "--silent"
spelled insecure_arg = codes "--insecure"
spelled bind_next = codes "--bind"
spelled (bind_is v) = codes "--bind=" ++ v
spelled grace_next = codes "--grace-period-ms"
spelled (grace_is v) = codes "--grace-period-ms=" ++ v
spelled (tls_next key) = flag_name key
spelled (tls_is key v) = flag_prefix key ++ v

abbrev Sound : Text → Option Arg → Type 0
Sound arg none = Unit
Sound arg (some a) = arg ≡ spelled a

exact-Sound : (word : Text) (a : Arg) (arg : Text) → word ≡ spelled a → Sound arg (exact word a arg)
exact-Sound word a arg h = elim (Bool-cases (same_text arg word)) [
  | inl e ↦ rw e (same_text-eq arg word e ∙ h)
  | inr e ↦ rw e tt
]

joined-Sound :
    (prefix : Text) (a : Text → Arg) (arg : Text)
    → ((v : Text) → prefix ++ v ≡ spelled (a v))
    → Sound arg (joined prefix a arg)
joined-Sound prefix a arg h = elim (Option-cases (after_prefix prefix arg)) [
  | inl e ↦ rw e tt
  | inr (v, e) ↦ rw e (after_prefix-eq prefix arg v e ∙ h v)
]

first-Sound : (arg : Text) (x y : Option Arg) → Sound arg x → Sound arg y → Sound arg (first x y)
first-Sound arg none y h k = k
first-Sound arg (some a) y h k = h

match_path_flag-Sound : (key : TlsFlagKey) (arg : Text) → Sound arg (match_path_flag key arg)
match_path_flag-Sound key arg =
    first-Sound arg _ _ (exact-Sound (flag_name key) (tls_next key) arg refl)
      (joined-Sound (flag_prefix key) (tls_is key) arg (λ v. refl))

read_arg-Sound : (arg : Text) → Sound arg (read_arg arg)
read_arg-Sound arg = first-Sound arg _ _ (exact-Sound (codes "--silent") silent_arg arg refl) (
    first-Sound arg _ _ (exact-Sound (codes "--insecure") insecure_arg arg refl) (
      first-Sound arg _ _ (exact-Sound (codes "--bind") bind_next arg refl) (
        first-Sound arg _ _ (joined-Sound (codes "--bind=") bind_is arg (λ v. refl)) (
          first-Sound arg _ _ (exact-Sound (codes "--grace-period-ms") grace_next arg refl) (
            first-Sound arg _ _ (joined-Sound (codes "--grace-period-ms=") grace_is arg (λ v. refl))
              (first-Sound arg _ _ (match_path_flag-Sound tls_cert arg)
                (match_path_flag-Sound tls_key arg)))))))

abbrev Takes : Text → Option Text → Bool → Item → Type 0
Takes w next true i = (v : Text) × (next ≡ some v) × (words i ≡ w ∷ v ∷ [])
Takes w next false i = words i ≡ w ∷ []

Parsed-cases :
    {A : Type 0} (r : Parsed A) → ((e : DaemonError) × (r ≡ error e)) ⊎ ((a : A) × (r ≡ ok a))
Parsed-cases (error e) = inl (e, refl)
Parsed-cases (ok a) = inr (a, refl)

-- A pair of TLS paths: both are there, or neither.
abbrev pub Paired : GatewayDaemonArgs → Type 0
Paired q = given q.tls_cert_path ≡ given q.tls_key_path

pair_test :
    (a b : Bool) (p q : GatewayDaemonArgs)
    → (if (a && not b) || (not a && b) then error tls_unpaired else ok p) ≡ ok q
    → (p ≡ q) × (a ≡ b)
pair_test true true p q h = (cc h, refl)
pair_test true false p q h = absurd (cc h)
pair_test false true p q h = absurd (cc h)
pair_test false false p q h = (cc h, refl)

check_pair-Paired : (p q : GatewayDaemonArgs) → check_pair p ≡ ok q → (p ≡ q) × Paired q
check_pair-Paired p q h =
    let (e, b) = pair_test (given p.tls_cert_path) (given p.tls_key_path) p q h in
    (e, subst Paired e b)

module _ (number : Text → Option ℤ) where
  -- What one turn of the loop has taken from the arguments.
  abbrev Taken : GatewayDaemonArgs → Text → Option Text → Parsed (GatewayDaemonArgs × Bool) → Type 0
  Taken p w next (error e) = Unit
  Taken p w next (ok (q, used)) = (i : Item) × Fits number i × (q ≡ apply p i) × Takes w next used i

  take_arg-grace :
      (p : GatewayDaemonArgs) (w v : Text) (s used : Bool) (next : Option Text) (z : Option ℤ)
      → number v ≡ z
      → ((n : ℕ)
          → number v ≡ some (pos n)
          → Fits number (grace_item s v n) × Takes w next used (grace_item s v n))
      → Taken p w next (then_parsed (grace_of z) (λ n. ok (set_grace p n, used)))
  take_arg-grace p w v s used next none h f = tt
  take_arg-grace p w v s used next (some (negsuc n)) h f = tt
  take_arg-grace p w v s used next (some (pos n)) h f =
      let (fits, takes) = f n h in (grace_item s v n, fits, refl, takes)

  take_arg-Taken :
      (p : GatewayDaemonArgs) (arg : Text) (next : Option Text) (a : Arg)
      → Taken p (spelled a) next (take_arg number p arg next (some a))
  take_arg-Taken p arg next silent_arg = (silent_item, tt, refl, refl)
  take_arg-Taken p arg next insecure_arg = (insecure_item, tt, refl, refl)
  take_arg-Taken p arg none bind_next = tt
  take_arg-Taken p arg (some v) bind_next = elim (Bool-cases (usable v)) [
    | inl e ↦ rw e (bind_item true v, e, refl, (v, refl, refl))
    | inr e ↦ rw e tt
  ]
  take_arg-Taken p arg next (bind_is v) = (bind_item false v, tt, refl, refl)
  take_arg-Taken p arg none grace_next = tt
  take_arg-Taken p arg (some v) grace_next = elim (Bool-cases (usable v)) [
    | inl e ↦
        rw e (
          take_arg-grace p _ v true true (some v) (number v) refl
            (λ n k. ((e, k), (v, refl, refl))))
    | inr e ↦ rw e tt
  ]
  take_arg-Taken p arg next (grace_is v) =
      take_arg-grace p _ v false false next (number v) refl (λ n k. ((tt, k), refl))
  take_arg-Taken p arg none (tls_next key) = tt
  take_arg-Taken p arg (some v) (tls_next key) = elim (Bool-cases (usable v)) [
    | inl e ↦ rw e (tls_item true key v, e, refl, (v, refl, refl))
    | inr e ↦ rw e tt
  ]
  take_arg-Taken p arg next (tls_is key v) = (tls_item false key v, tt, refl, refl)

  read-Taken :
      (p : GatewayDaemonArgs) (arg : Text) (next : Option Text) (a : Option Arg)
      → Sound arg a
      → Taken p arg next (take_arg number p arg next a)
  read-Taken p arg next none h = tt
  read-Taken p arg next (some a) h =
      subst (λ w. Taken p w next (take_arg number p arg next (some a))) (sym h)
        (take_arg-Taken p arg next a)

  abbrev pub Accepted : GatewayDaemonArgs → List Text → Parsed GatewayDaemonArgs → Type 0
  Accepted p argv (error e) = Unit
  Accepted p argv (ok q) =
      (is : List Item) × All (Fits number) is × (argv ≡ all_words is) × (q ≡ fold_left apply p is)

  then-Accepted :
      (p q : GatewayDaemonArgs) (i : Item) (argv rest : List Text) (r : Parsed GatewayDaemonArgs)
      → Fits number i
      → q ≡ apply p i
      → argv ≡ words i ++ rest
      → Accepted q rest r
      → Accepted p argv r
  then-Accepted p q i argv rest (error e) f h k a = tt
  then-Accepted p q i argv rest (ok o) f h k (is, fs, g, l) =
      (i ∷ is, (f, fs), k ∙ ap (words i ++◌) g, l ∙ ap (λ x. fold_left apply x is) h)

  used-Accepted :
      (p q : GatewayDaemonArgs) (arg next : Text) (rest : List Text) (r : Parsed GatewayDaemonArgs)
      → Taken p arg (some next) (ok (q, true))
      → Accepted q rest r
      → Accepted p (arg ∷ next ∷ rest) r
  used-Accepted p q arg next rest r (i, f, g, (v, n, k)) a =
      then-Accepted p q i (arg ∷ next ∷ rest) rest r f g (rw k (cc n)) a

  unused-Accepted :
      (p q : GatewayDaemonArgs) (arg : Text) (next : Option Text) (rest : List Text)
      (r : Parsed GatewayDaemonArgs)
      → Taken p arg next (ok (q, false))
      → Accepted q rest r
      → Accepted p (arg ∷ rest) r
  unused-Accepted p q arg next rest r (i, f, g, k) a =
      then-Accepted p q i (arg ∷ rest) rest r f g (rw k refl) a

  last-Accepted :
      (p q : GatewayDaemonArgs) (arg : Text) (used : Bool)
      → Taken p arg none (ok (q, used))
      → Accepted p (arg ∷ []) (ok q)
  last-Accepted p q arg true (i, f, g, (v, n, k)) = absurd (cc n)
  last-Accepted p q arg false taken =
      unused-Accepted p q arg none [] (ok q) taken ([], tt, refl, refl)

  parse_loop-Accepted :
      (argv : List Text) (p : GatewayDaemonArgs) → Accepted p argv (parse_loop number p argv)
  unfolding parse_loop
  parse_loop-Accepted [] p = ([], tt, refl, refl)
  parse_loop-Accepted (arg ∷ []) p =
      let taken = read-Taken p arg none (read_arg arg) (read_arg-Sound arg) in
      elim (Parsed-cases (take_arg number p arg none (read_arg arg))) [
        | inl (e, h) ↦ rw h tt
        | inr ((q, used), h) ↦ rw h (last-Accepted p q arg used (rw h at taken))
      ]
  parse_loop-Accepted (arg ∷ next ∷ rest) p =
      let taken = read-Taken p arg (some next) (read_arg arg) (read_arg-Sound arg) in
      elim (Parsed-cases (take_arg number p arg (some next) (read_arg arg))) [
        | inl (e, h) ↦ rw (h, parse_loop) tt
        | inr ((q, true), h) ↦
            rw (h, parse_loop)
              (used-Accepted p q arg next rest _ (rw h at taken) (parse_loop-Accepted rest q))
        | inr ((q, false), h) ↦
            rw (h, parse_loop)
              (unused-Accepted p q arg (some next) (next ∷ rest) _ (rw h at taken)
                (parse_loop-Accepted (next ∷ rest) q))
      ]

  -- What is accepted was spelled, whatever the arguments are: every argument belongs to a setting, a
  -- value that stands by itself is not empty and does not begin with `--`, a grace period denotes the
  -- natural number that is set, the result is what these settings say, in their order, and of the two
  -- TLS paths neither or both are given. Any other argument list is refused with an error.
  pub parse_gateway_daemon_args-Accepted :
      (argv : List Text) (q : GatewayDaemonArgs)
      → parse_gateway_daemon_args number argv ≡ ok q
      → Accepted no_args argv (ok q) × Paired q
  unfolding parse_gateway_daemon_args
  parse_gateway_daemon_args-Accepted argv q h =
      let found = parse_loop-Accepted argv no_args in
      elim (Parsed-cases (parse_loop number no_args argv)) [
        | inl (e, k) ↦ absurd (cc (h, k))
        | inr (p, k) ↦
            let (e, paired) = check_pair-Paired p q (rw (k, parse_gateway_daemon_args) at h) in
            (subst (λ x. Accepted no_args argv (ok x)) e (rw k at found), paired)
      ]
