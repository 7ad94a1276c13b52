-- ===== src/Providers/Stream/Accounts.antt =====
-- internal/providers/stream.go: a report whose totals are those of its events.
use code_maintainer.Base.{
  ℕ, ◌+◌, ◌≤◌, ◌≡◌, refl, ◌∙◌, String, Bool, true, false, ◌||◌, List, [], ◌∷◌, ◌++◌, All,
  All-append, any, arith,
}
use code_maintainer.Providers.Stream.{
  Step, done_step, canceled_step, usage_delta, content_delta, tool_call_delta, StreamReport,
  max_stream_content_bytes,
}

-- What the events say.
abbrev pub text_of : Step → ℕ
text_of (content_delta n) = n
text_of _ = 0

abbrev pub is_tool : Step → ℕ
is_tool (tool_call_delta k) = 1
is_tool _ = 0

abbrev pub is_usage : Step → ℕ
is_usage usage_delta = 1
is_usage _ = 0

abbrev pub is_end : Step → Bool
is_end done_step = true
is_end canceled_step = true
is_end _ = false

abbrev pub OfTool : String → Step → Type 0
OfTool key (tool_call_delta k) = k ≡ key
OfTool key _ = Unit

abbrev pub total : (Step → ℕ) → List Step → ℕ
total f [] = 0
total f (s ∷ ss) = f s + total f ss

pub total-push :
    (f : Step → ℕ) (ss : List Step) (s : Step) → total f (ss ++ (s ∷ [])) ≡ total f ss + f s
total-push f [] s = omega arith
total-push f (x ∷ xs) s = omega (arith, total-push f xs s)

pub any-push :
    (f : Step → Bool) (ss : List Step) (s : Step) → any f (ss ++ (s ∷ [])) ≡ (any f ss || f s)
any-push f [] s = ground arith
any-push f (x ∷ xs) s = ground (arith, any-push f xs s)

-- A report whose totals are those of its events, and whose events are of one tool call.
pub record Accounted (key : String) (r : StreamReport) : Type 0 where
  pub content : r.content_bytes ≡ total text_of r.events
  pub within_bound : r.content_bytes ≤ max_stream_content_bytes
  pub tools : r.tool_call_deltas ≡ total is_tool r.events
  pub usages : r.partial_usage_events ≡ total is_usage r.events
  pub ended : r.terminal ≡ any is_end r.events
  pub one_tool : All (OfTool key) r.events

-- A report that has one event more, counted.
pub record Pushed (s : Step) (r r' : StreamReport) : Type 0 where
  pub events : r'.events ≡ r.events ++ (s ∷ [])
  pub content : r'.content_bytes ≡ r.content_bytes + text_of s
  pub within_bound : r'.content_bytes ≤ max_stream_content_bytes
  pub tools : r'.tool_call_deltas ≡ r.tool_call_deltas + is_tool s
  pub usages : r'.partial_usage_events ≡ r.partial_usage_events + is_usage s
  pub ended : r'.terminal ≡ (r.terminal || is_end s)

pub Pushed-Accounted :
    (key : String) (s : Step) (r r' : StreamReport)
    → Accounted key r
    → OfTool key s
    → Pushed s r r'
    → Accounted key r'
Pushed-Accounted key s r r' a tool d = record {
  content = d.content ∙ rw (d.events, total-push text_of r.events s, a.content) refl;
  within_bound = d.within_bound;
  tools = d.tools ∙ rw (d.events, total-push is_tool r.events s, a.tools) refl;
  usages = d.usages ∙ rw (d.events, total-push is_usage r.events s, a.usages) refl;
  ended = d.ended ∙ rw (d.events, any-push is_end r.events s, a.ended) refl;
  one_tool = rw d.events (All-append (OfTool key) r.events (s ∷ []) a.one_tool (tool, tt));
}
