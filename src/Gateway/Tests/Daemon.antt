-- ===== src/Gateway/Tests/Daemon.antt =====
-- Options of the daemon.
use athena_flow_cli.Common.{
  ℤ, pos, Option, none, some, List, [], ◌∷◌, if◌then◌else◌, ◌≡◌, refl, true, false, fold_left,
}
use athena_flow_cli.Common.Text.{Text, codes, same_text}
use native.Mathlib.Decide.{ℕ_discrete}
use athena_flow_cli.Gateway.DaemonArgs.{
  GatewayDaemonArgs, tls_cert, tls_key, ok, no_args, check_pair, parse_loop,
  parse_gateway_daemon_args,
}
use athena_flow_cli.Gateway.DaemonArgs.Spelling.{
  Item, silent_item, bind_item, grace_item, tls_item, all_words, apply,
  parse_gateway_daemon_args-all_words,
}
use athena_flow_cli.Gateway.DaemonArgs.Accepted.{
  Accepted, Paired, parse_gateway_daemon_args-Accepted,
}

-- `Number` on one text.
abbrev number : Text → Option ℤ
number t = if same_text t (codes "250") then some (pos 250) else none

abbrev items : List Item
items =
    silent_item
    ∷ bind_item true (codes "0.0.0.0")
    ∷ grace_item false (codes "250") 250
    ∷ tls_item true tls_cert (codes "c.pem")
    ∷ tls_item false tls_key (codes "k.pem")
    ∷ []

parse_gateway_daemon_args-all_words_example :
    parse_gateway_daemon_args number (all_words items) ≡ check_pair (fold_left apply no_args items)
unfolding ℕ_discrete
parse_gateway_daemon_args-all_words_example =
    parse_gateway_daemon_args-all_words number items (tt, (refl, ((tt, refl), (refl, (tt, tt)))))

abbrev argv : List Text
argv = codes "--insecure" ∷ codes "--bind" ∷ codes "h" ∷ []

abbrev parsed : GatewayDaemonArgs
parsed = record no_args { insecure = true; bind = some (codes "h") }

accepted : parse_gateway_daemon_args number argv ≡ ok parsed
unfolding parse_gateway_daemon_args parse_loop ℕ_discrete
accepted = refl

parse_gateway_daemon_args-Accepted_example :
    Accepted number no_args argv (ok parsed) × Paired parsed
parse_gateway_daemon_args-Accepted_example =
    parse_gateway_daemon_args-Accepted number argv parsed accepted
