-- ===== src/Control/Runtime/Lifecycle.antt =====
-- What one step of a reconciliation does to the stream's gate and its report.
use scraper.Base.{
  ℕ, ◌≡◌, refl, ◌≢◌, Bool, true, ◌&&◌, List, [], ◌∷◌, ◌++◌, arith, Option, none, some, append_assoc,
}
use scraper.Text.{Text}
use scraper.Time.{Time}
use scraper.Control.Stream.{Stream, ActualState, unset, is_positive}
use scraper.Control.Handle.{
  ManagedStream, Effect, report, stops, report_of, Runtime, Factory, lookup, snapshot_report,
  commit, kept_state, live_enabled, set_enabled, with_stream,
}
use scraper.Control.Reconcile.{reconcile_stream, cancel_call}
use scraper.Control.Runtime.Cases.{reconcile_cases, lookup-put, gate_of, gate_of-set_gate, before}

abbrev pub publisher_of : Option ManagedStream → Option ℕ
publisher_of none = none
publisher_of (some h) = h.publisher

-- The gated publisher, if there is one, lets through what is asked for.
abbrev pub Lets : Bool → List (ℕ × Bool) → Option ℕ → Type 0
Lets live gates none = Unit
Lets live gates (some g) = gate_of g gates ≡ live

abbrev Follows : Stream → Bool → Runtime → Type 0
Follows stream live r = Lets live r.gates (publisher_of (lookup stream.stream_id r.managed))

set_enabled-Lets :
    (live : Bool) (gates : List (ℕ × Bool)) (p : Option ℕ) → Lets live (set_enabled p live gates) p
set_enabled-Lets live gates none = tt
set_enabled-Lets live gates (some g) = gate_of-set_gate g live gates

-- After a step for a stream, if its handle has a gated publisher, that one publishes exactly if the
-- stream's live delivery is effective and the process has a publisher.
pub reconcile_stream-gate :
    (now : Time) (stream : Stream) (factory : Factory) (r : Runtime)
    → let r' = reconcile_stream now stream factory r in
      Lets
        (stream.effective_live_delivery && r.has_publisher)
        r'.gates
        (publisher_of (lookup stream.stream_id r'.managed))
unfolding live_enabled
reconcile_stream-gate now stream factory r =
    let live = stream.effective_live_delivery && r.has_publisher in
    let same = set_enabled-Lets live r.gates (before now stream factory r).publisher in
    reconcile_cases now stream factory r (Follows stream live)
      (λ e runs idle failed. rw (lookup-put stream.stream_id) tt)
      (λ runs idle made. rw (lookup-put stream.stream_id) (gate_of-set_gate _ live _))
      (λ c runs busy. rw (lookup-put stream.stream_id) same)
      (λ over idle. rw (lookup-put stream.stream_id) same)
      (λ c over busy wait. rw (lookup-put stream.stream_id) same)
      (λ c over busy past. rw (lookup-put stream.stream_id) tt)

-- A step that ends with the report of the handle that it leaves.
pub record Reports (stream : Stream) (earlier : List Effect) (r : Runtime) : Type 0 where
  pub handle : ManagedStream
  pub text : Text
  pub calls : List Effect
  pub kept : lookup stream.stream_id r.managed ≡ some handle
  pub newest : handle.stream ≡ stream
  pub settled : handle.state ≢ unset
  pub last : r.trace ≡ earlier ++ (calls ++ (report (snapshot_report handle text) ∷ []))

reported :
    (stream : Stream) (h : ManagedStream) (text : Text)
    → is_positive stream.stream_id ≡ true
    → h.stream ≡ stream
    → h.state ≢ unset
    → report_of (snapshot_report h text) ≡ report (snapshot_report h text) ∷ []
unfolding snapshot_report
reported stream h text p s u = ground arith

kept_state-set : (s : ActualState) (t : Option Time) → kept_state s t ≢ unset
kept_state-set s t = ground arith

commit-Reports :
    (r : Runtime) (stream : Stream) (h : ManagedStream) (text : Text) (calls es : List Effect)
    → is_positive stream.stream_id ≡ true
    → h.stream ≡ stream
    → h.state ≢ unset
    → es ≡ calls ++ report_of (snapshot_report h text)
    → Reports stream r.trace (commit r stream.stream_id h es)
commit-Reports r stream h text calls es p s u e = record {
  handle = h;
  text = text;
  calls = calls;
  kept = lookup-put stream.stream_id h r.managed;
  newest = s;
  settled = u;
  last = rw (e, reported stream h text p s u) refl;
}

newest_stream :
    (stream : Stream) (o : Option ManagedStream) → (with_stream stream o).stream ≡ stream
newest_stream stream none = refl
newest_stream stream (some h) = refl

-- A step for a stream with a positive number leaves a handle with the stream as it was listed and with
-- a state, and the last call of the step is the report of that handle.
pub reconcile_stream-Reports :
    (now : Time) (stream : Stream) (factory : Factory) (r : Runtime)
    → is_positive stream.stream_id ≡ true
    → Reports stream r.trace (reconcile_stream now stream factory r)
reconcile_stream-Reports now stream factory r p =
    let h = before now stream factory r in
    let s = newest_stream stream (lookup stream.stream_id r.managed) in
    reconcile_cases now stream factory r (Reports stream r.trace)
      (λ e runs idle failed. commit-Reports _ stream _ e [] _ p s (λ q. cc) refl)
      (λ runs idle made. commit-Reports _ stream _ _ (_ ∷ []) _ p s (λ q. cc) refl)
      (λ c runs busy.
        commit-Reports _ stream _ _ [] _ p s (kept_state-set h.state h.last_data_at) refl)
      (λ over idle. commit-Reports _ stream _ [] [] _ p s (λ q. cc) refl)
      (λ c over busy wait. commit-Reports _ stream _ [] [] _ p s (λ q. cc) refl)
      (λ c over busy past.
        commit-Reports _ stream _ [] (cancel_call h.cancel ++ (stops c ∷ [])) _ p s (λ q. cc)
          (simp append_assoc))
