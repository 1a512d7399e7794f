-- ===== src/Network/Matches.antt =====
-- The calls of Network against those of Pipeline: a thread that calls another pipeline finds there what the
-- model of a single pipeline says.
use warlib.Base.{
  ℕ, ◌+◌, ◌<◌, ◌≡◌, ◌≢◌, refl, sym, ap, ◌%◌, Option, ◌∙◌, subst, Bool, true, false, List, [], ◌∷◌,
  ◌++◌, ltb, ◌==◌, if◌then◌else◌, arith, if_false,
}
use warlib.Errors.{Exn}
use warlib.Pipeline.{
  word, Pipeline, Handler, enqueue, then_enqueue, adding_task, Outcome, returned, threw,
}
use warlib.Network.{
  Prog, Job, exec, shut, Frame, NodeThread, busy, waits, Node, Net, waiting, is_full, send,
  set_thread,
}
use warlib.Network.Inv.{put_at-same}

-- What both models know of a pipeline.
pub record Matches (n : Node) (p : Pipeline) : Type 0 where
  pub same_closing : n.closing ≡ p.closing
  pub same_capacity : n.capacity ≡ p.capacity
  pub counted : waiting n.queue ≡ p.count

-- What a call leaves to the thread that makes it.
abbrev pub thread_after : Outcome → Prog → List Frame → NodeThread
thread_after returned rest frames = busy rest frames
thread_after (threw e) rest frames = busy Prog.throws frames
thread_after (Outcome.waits k) rest frames = waits k rest frames

pub waiting-append : (q r : List Job) → waiting (q ++ r) ≡ waiting q + waiting r
waiting-append [] r = omega arith
waiting-append (exec task reply ∷ q) r = omega (arith, waiting-append q r)
waiting-append (shut ∷ q) r = waiting-append q r

-- The thread of `i` and the pipeline `j`, after a call of `j` by `i`.
pub record Agree (i j : ℕ) (rest : Prog) (frames : List Frame) (u : Net) (r : Outcome × Pipeline)
    : Type 0 where
  pub thread : (u.nodes i).thread ≡ thread_after r.0 rest frames
  pub matches : Matches (u.nodes j) r.1

module _ (i j : ℕ) (ne : j ≢ i) (rest : Prog) (frames : List Frame) where
  -- A call that ends with `v` for the pipeline `j` and with the thread `t`.
  pub ends-Agree :
      (u : Net) (t : NodeThread) (r : Outcome × Pipeline)
      → t ≡ thread_after r.0 rest frames
      → Matches (u.nodes j) r.1
      → Agree i j rest frames (set_thread i t u) r
  ends-Agree u t r e m =
      let other : (set_thread i t u).nodes j ≡ u.nodes j = if_false (j == i) _ _ (ground arith) in
      record {
        thread =
            ap (λ (v : Node). v.thread) (put_at-same i (record (u.nodes i) { thread = t }) u.nodes)
            ∙ e;
        matches = subst (λ v. Matches v r.1) (sym other) m;
      }

  pub if-Agree :
      (b c : Bool) (u w : Net) (q r : Outcome × Pipeline)
      → b ≡ c
      → (c ≡ true → Agree i j rest frames u q)
      → (c ≡ false → Agree i j rest frames w r)
      → Agree i j rest frames (if b then u else w) (if c then q else r)
  if-Agree true true u w q r e f g = f refl
  if-Agree true false u w q r e f g = absurd (ground arith)
  if-Agree false true u w q r e f g = absurd (ground arith)
  if-Agree false false u w q r e f g = g refl

  pub Agree-same :
      (u w : Net) (q r : Outcome × Pipeline)
      → u ≡ w
      → q ≡ r
      → Agree i j rest frames w r
      → Agree i j rest frames u q
  Agree-same u w q r e f a =
      subst (λ x. Agree i j rest frames x q) (sym e) (subst (Agree i j rest frames w) (sym f) a)

  send-Matches :
      (u : Net) (task : Prog) (reply : Option ℕ) (h : Handler) (p : Pipeline)
      → Matches (u.nodes j) p
      → p.count + 1 < word
      → Matches
          ((send j (exec task reply) u).nodes j)
          (enqueue h (record p { count = (p.count + 1) % word }))
  send-Matches u task reply h p m room =
      subst (λ v. Matches v (enqueue h (record p { count = (p.count + 1) % word })))
        (sym (put_at-same j _ u.nodes))
        (record {
          same_closing = m.same_closing;
          same_capacity = m.same_capacity;
          counted =
              omega
                (arith, waiting-append (u.nodes j).queue (exec task reply ∷ []), m.counted, room);
        })

  given-Agree :
      (f : Outcome × Pipeline → Outcome × Pipeline) (h : Handler) (b c : Bool) (u w : Net) (e : Exn)
      (q r : Pipeline) (o : Outcome)
      → b ≡ c
      → f (threw e, q) ≡ (threw e, q)
      → f (returned, enqueue h r) ≡ (o, enqueue h r)
      → Matches (u.nodes j) q
      → Matches (w.nodes j) (enqueue h r)
      → Agree i j rest frames
          (if b
            then set_thread i (busy Prog.throws frames) u
            else set_thread i (thread_after o rest frames) w)
          (f (then_enqueue h (if c then (threw e, q) else (returned, r))))
  given-Agree f h true true u w e q r o same throws returns m n =
      subst (Agree i j rest frames _) (sym throws) (ends-Agree u _ (threw e, q) refl m)
  given-Agree f h true false u w e q r o same throws returns m n = absurd (ground arith)
  given-Agree f h false true u w e q r o same throws returns m n = absurd (ground arith)
  given-Agree f h false false u w e q r o same throws returns m n =
      subst (Agree i j rest frames _) (sym returns) (ends-Agree w _ (o, enqueue h r) refl n)

  -- AddingTask and the `post` behind it, when the caller then does `f`.
  pub give-Agree :
      (f : Outcome × Pipeline → Outcome × Pipeline) (u : Net) (task : Prog) (reply : Option ℕ)
      (h : Handler) (p : Pipeline) (o : Outcome)
      → ((e : Exn) (q : Pipeline) → f (threw e, q) ≡ (threw e, q))
      → f (returned, enqueue h (record p { count = (p.count + 1) % word }))
        ≡ (o, enqueue h (record p { count = (p.count + 1) % word }))
      → Matches (u.nodes j) p
      → p.count + 1 < word
      → Agree i j rest frames
          (if is_full (u.nodes j)
            then set_thread i (busy Prog.throws frames) u
            else set_thread i (thread_after o rest frames) (send j (exec task reply) u))
          (f (then_enqueue h (adding_task p)))
  unfolding adding_task
  give-Agree f u task reply h p o throws returns m fits =
      let full : is_full (u.nodes j) ≡ ltb p.capacity ((p.count + 1) % word) =
        ground (arith, m.counted, m.same_capacity, fits) in
      given-Agree f h _ _ u (send j (exec task reply) u) _ _ _ o full (throws _ _) returns
        (record {
          same_closing = m.same_closing;
          same_capacity = m.same_capacity;
          counted = omega (arith, m.counted, fits);
        })
        (send-Matches u task reply h p m fits)
