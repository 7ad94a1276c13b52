-- ===== src/Providers/Stream/Sound.antt =====
-- internal/providers/stream.go: every event keeps the totals of the report, and its one tool call.
use code_maintainer.Base.{
  ◌+◌, ◌≡◌, refl, subst, String, Bool, true, false, not, ◌&&◌, Option, none, some, List, [], ◌∷◌,
  All, length, arith, ltb, Bool-cases, inl, inr, ◌⊎◌, ◌is◌, eq_iff,
}
use code_maintainer.Base.Text.{is_empty}
use code_maintainer.Providers.Json.{Value, object}
use code_maintainer.Providers.Records.{StreamError, Outcome, done, failed, too_many_tools}
use code_maintainer.Providers.Events.{
  StreamUsage, event_canceled, event_truncated, event_terminal, event_text_bytes, event_usage,
}
use code_maintainer.Providers.ToolKeys.{event_tool_keys}
use code_maintainer.Providers.ToolKeys.Laws.{IsKey, event_tool_keys-IsKey}
use code_maintainer.Providers.Stream.{
  Decoded, event, no_event, more_data, Step, done_step, canceled_step, usage_delta, content_delta,
  tool_call_delta, StreamReport, Parse, ◌then_parse◌, finish, cancel, add_truncated, add_text,
  add_key, tool_delta, add_tool, add_tools, add_usage, add_terminal, bounded, add_event,
  add_decoded, max_stream_content_bytes, max_stream_chunks,
}
use code_maintainer.Providers.Stream.Accounts.{
  is_tool, OfTool, total, total-push, Accounted, Pushed, Pushed-Accounted,
}

-- No tool call so far, or one under its key.
pub record Sound (p : Parse) : Type 0 where
  pub accounted : Accounted p.active_tool_key p.report
  pub keys :
      ((p.active_tool_key ≡ "") × (p.tool_keys ≡ []) × (total is_tool p.report.events ≡ 0))
      ⊎ (IsKey p.active_tool_key × (p.tool_keys ≡ p.active_tool_key ∷ []))

abbrev pub too_many : StreamError → Bool
too_many too_many_tools = true
too_many _ = false

-- A step that succeeds is sound, and one that fails does not fail by the number of tool calls.
abbrev pub Kept : Outcome Parse → Type 0
Kept (done p) = Sound p
Kept (failed e) = too_many e ≡ false

pub then_parse-Kept :
    (m : Outcome Parse) (f : Parse → Outcome Parse)
    → Kept m
    → ((p : Parse) → Sound p → Kept (f p))
    → Kept (m then_parse f)
then_parse-Kept (done p) f s next = next p s
then_parse-Kept (failed e) f s next = s

-- An event of no tool call.
Pushed-Sound :
    (s : Step) (p : Parse) (r' : StreamReport)
    → is_tool s ≡ 0
    → OfTool p.active_tool_key s
    → Sound p
    → Pushed s p.report r'
    → Sound (record p { report = r' })
Pushed-Sound s p r' plain tool v d = record {
  accounted = Pushed-Accounted p.active_tool_key s p.report r' v.accounted tool d;
  keys = elim v.keys [
    | inl (a, b, c) ↦ inl (a, b, rw (d.events, total-push is_tool p.report.events s) (omega arith))
    | inr kept ↦ inr kept
  ];
}

pub finish-Sound : (p : Parse) → Sound p → Sound (finish p)
finish-Sound p v = Pushed-Sound done_step p (finish p).report refl tt v (record {
  events = refl;
  content = omega arith;
  within_bound = v.accounted.within_bound;
  tools = omega arith;
  usages = omega arith;
  ended = ground arith;
})

pub cancel-Sound : (p : Parse) → Sound p → Sound (cancel p)
cancel-Sound p v = Pushed-Sound canceled_step p (cancel p).report refl tt v (record {
  events = refl;
  content = omega arith;
  within_bound = v.accounted.within_bound;
  tools = omega arith;
  usages = omega arith;
  ended = ground arith;
})

add_truncated-Sound : (raw : Value) (p : Parse) → Sound p → Sound (add_truncated raw p)
unfolding add_truncated
add_truncated-Sound raw p v = elim (Bool-cases (event_truncated raw)) [
  | inl b ↦ rw b (record {
    accounted = record {
      content = v.accounted.content;
      within_bound = v.accounted.within_bound;
      tools = v.accounted.tools;
      usages = v.accounted.usages;
      ended = v.accounted.ended;
      one_tool = v.accounted.one_tool;
    };
    keys = v.keys;
  })
  | inr b ↦ rw b v
]

add_text-Kept : (raw : Value) (p : Parse) → Sound p → Kept (add_text raw p)
unfolding add_text
add_text-Kept raw p v = elim (Bool-cases (ltb 0 (event_text_bytes raw))) [
  | inr none_left ↦ rw none_left v
  | inl more ↦
      elim (Bool-cases
        (ltb max_stream_content_bytes (p.report.content_bytes + event_text_bytes raw))) [
          | inl b ↦ rw (more, b) refl
          | inr b ↦
              rw (more, b)
                (Pushed-Sound (content_delta (event_text_bytes raw)) p _ refl tt v (record {
                  events = refl;
                  content = refl;
                  within_bound = ground arith;
                  tools = omega arith;
                  usages = omega arith;
                  ended = ground arith;
                }))
        ]
]

add_usage-Sound : (u : Option StreamUsage) (p : Parse) → Sound p → Sound (add_usage u p)
unfolding add_usage
add_usage-Sound none p v = v
add_usage-Sound (some u) p v =
    Pushed-Sound usage_delta p (add_usage (some u) p).report refl tt v (record {
      events = refl;
      content = omega arith;
      within_bound = v.accounted.within_bound;
      tools = omega arith;
      usages = refl;
      ended = ground arith;
    })

-- Events of no tool call at all are of any.
pub no_tools : (key : String) (ss : List Step) → total is_tool ss ≡ 0 → All (OfTool key) ss
no_tools key [] h = tt
no_tools key (tool_call_delta k ∷ ss) h = absurd (omega arith)
no_tools key (done_step ∷ ss) h = (tt, no_tools key ss (omega arith))
no_tools key (canceled_step ∷ ss) h = (tt, no_tools key ss (omega arith))
no_tools key (usage_delta ∷ ss) h = (tt, no_tools key ss (omega arith))
no_tools key (content_delta n ∷ ss) h = (tt, no_tools key ss (omega arith))

tool_delta-Pushed :
    (k : String) (p : Parse) → Sound p → Pushed (tool_call_delta k) p.report (tool_delta k p).report
tool_delta-Pushed k p v = record {
  events = refl;
  content = omega arith;
  within_bound = v.accounted.within_bound;
  tools = refl;
  usages = omega arith;
  ended = ground arith;
}

-- A report of no tool call yet, or of this one, is one of this.
of_this_tool :
    (k : String) (p : Parse)
    → Sound p
    → (not (is_empty p.active_tool_key) && not (p.active_tool_key is k)) ≡ false
    → Accounted k p.report × (add_key k p.tool_keys ≡ k ∷ [])
of_this_tool k p v fits = elim v.keys [
  | inl (a, b, c) ↦ (
    record {
      content = v.accounted.content;
      within_bound = v.accounted.within_bound;
      tools = v.accounted.tools;
      usages = v.accounted.usages;
      ended = v.accounted.ended;
      one_tool = no_tools k p.report.events c;
    },
    rw b refl,
  )
  | inr (named, one) ↦
      let same : p.active_tool_key ≡ k = ground (arith, eq_iff p.active_tool_key k) in
      (
        subst (λ key. Accounted key p.report) same v.accounted,
        rw (one, same) (ground (arith, eq_iff k k)),
      )
]

add_tool-Kept : (k : String) (p : Parse) → IsKey k → Sound p → Kept (add_tool k p)
unfolding add_tool
add_tool-Kept k p named v =
    elim (Bool-cases (not (is_empty p.active_tool_key) && not (p.active_tool_key is k))) [
      | inl b ↦ rw (add_tool, b) refl
      | inr b ↦
          let (a, one) = of_this_tool k p v b in
          rw (add_tool, b, one)
            (record {
              accounted =
                  Pushed-Accounted k (tool_call_delta k) p.report (tool_delta k p).report a refl
                    (tool_delta-Pushed k p v);
              keys = inr (named, refl);
            })
    ]

add_tools-Kept : (ks : List String) (p : Parse) → All IsKey ks → Sound p → Kept (add_tools ks p)
unfolding add_tools
add_tools-Kept [] p named v = v
add_tools-Kept (k ∷ ks) p (n, named) v =
    then_parse-Kept (add_tool k p) (add_tools ks) (add_tool-Kept k p n v)
      (λ q w. add_tools-Kept ks q named w)

bounded-Kept : (p : Parse) → Sound p → Kept (bounded p)
unfolding bounded
bounded-Kept p v = elim (Bool-cases (ltb max_stream_chunks (length p.report.events))) [
  | inl b ↦ rw b refl
  | inr b ↦ rw b v
]

add_terminal-Sound : (raw : Value) (p : Parse) → Sound p → Sound (add_terminal raw p)
unfolding add_terminal
add_terminal-Sound raw p v = elim (Bool-cases (event_terminal raw)) [
  | inl b ↦ rw b (finish-Sound p v)
  | inr b ↦ rw b v
]

-- What is left of an event after its text.
rest-Kept :
    (raw : Value) (p : Parse)
    → Sound p
    → Kept (bounded (add_terminal raw (add_usage (event_usage raw) p)))
rest-Kept raw p v =
    bounded-Kept (add_terminal raw (add_usage (event_usage raw) p)) (
      add_terminal-Sound raw (add_usage (event_usage raw) p)
        (add_usage-Sound (event_usage raw) p v))

pub add_event-Kept : (raw : Value) (p : Parse) → Sound p → Kept (add_event raw p)
unfolding add_event
add_event-Kept raw p v = elim (Bool-cases (event_canceled raw)) [
  | inl b ↦ rw (add_event, b) (cancel-Sound p v)
  | inr b ↦
      let texts = add_text-Kept raw (add_truncated raw p) (add_truncated-Sound raw p v) in
      rw (add_event, b)
        (then_parse-Kept _ _
          (then_parse-Kept (add_text raw (add_truncated raw p)) _ texts
            (λ q w. add_tools-Kept (event_tool_keys raw) q (event_tool_keys-IsKey raw) w))
          (λ q w. rest-Kept raw q w))
]

pub add_decoded-Kept : (d : Decoded) (p : Parse) → Sound p → Kept (add_decoded d p)
unfolding add_decoded
add_decoded-Kept (event ms) p v = add_event-Kept (object ms) p v
add_decoded-Kept no_event p v = refl
add_decoded-Kept more_data p v = refl
