-- ===== src/Feed/Store/Tests.antt =====
-- A store that is restored from two events and pushed a delta, its successor and a result.
use athena_flow_cli.Common.{some, List, [], ◌∷◌, ◌≡◌, arith, string_eq}
use athena_flow_cli.Common.Dict.{get}
use athena_flow_cli.Feed.Store.{
  FeedEvent, tool_delta, tool_post, other, new_feed_store, build_post_by_tool_use_id,
}
use athena_flow_cli.Feed.Store.Index.{push_all, push_all-index}

abbrev bootstrap : List FeedEvent
bootstrap = record { seq = 1; kind = tool_post (some "t1") } ∷ record { seq = 2; kind = other } ∷ []

abbrev batches : List (List FeedEvent)
batches =
    (record { seq = 3; kind = tool_delta (some "t2") } ∷ [])
    ∷ (record { seq = 4; kind = tool_delta (some "t2") }
        ∷ record { seq = 5; kind = tool_post (some "t1") }
        ∷ [])
    ∷ []

push_all-index_example :
    get "t2" (push_all (new_feed_store bootstrap) batches).post_by_tool_use_id
    ≡ get "t2" (build_post_by_tool_use_id (push_all (new_feed_store bootstrap) batches).events)
push_all-index_example =
    push_all-index bootstrap batches "t2" (omega arith, (omega arith, tt))
      ((omega arith, tt), ((omega arith, (omega arith, tt)), tt))
