-- ===== src/Gateway/SessionKey.antt =====
-- src/gateway/router/sessionKey.ts: the key by which turns are routed. In the source an empty id
-- counts as absent.
use Prim.Native.String
use athena_flow_cli.Common.{String, Option, none, some, if◌then◌else◌, ◌==◌, string_eq}
use athena_flow_cli.Gateway.Types.{ChannelLocation}

infixr 65 ◌+s◌
abbrev pub ◌+s◌ : String → String → String
◌+s◌ = String.◌++◌

-- `loc.peer?.id` as a condition
abbrev pub truthy : Option String → Option String
truthy none = none
truthy (some s) = if s == "" then none else some s

key_of : String → String → String → String → Option String → String
key_of ladder c a id none = ladder +s ":" +s c +s ":" +s a +s ":" +s id
key_of ladder c a id (some thread) = ladder +s ":" +s c +s ":" +s a +s ":" +s id +s ":" +s thread

derive : String → String → Option String → Option String → Option String → String
unfolding key_of
derive c a (some peer) room thread = key_of "peer" c a peer thread
derive c a none (some room) thread = key_of "room" c a room thread
derive c a none none thread = "default" +s ":" +s c +s ":" +s a

unfoldable pub derive_session_key : ChannelLocation → String
unfolding derive
derive_session_key loc =
    derive loc.channel_id loc.account_id (truthy loc.peer) (truthy loc.room) (truthy loc.thread)
