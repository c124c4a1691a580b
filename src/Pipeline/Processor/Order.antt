-- ===== src/Pipeline/Processor/Order.antt =====
-- The sequence numbers of the frames that a worker of src/pipeline/src/pipeline.cpp passes on.
use paper_breakage_analysis.Base.{
  ℕ, ◌≤◌, ◌<◌, ◌≡◌, refl, sym, ap, subst, inc_u64, ◌∙◌, ◌⊎◌, inl, inr, false, ◌&&◌, Option, none,
  some, List, [], ◌∷◌, ◌++◌, Result, success, failure, arith, ltb, leb, if-holds,
}
use paper_breakage_analysis.Base.Slots.{held}
use paper_breakage_analysis.Camera.Frame.{Clocks, FramePacket, FrameView, make_frame_view}
use paper_breakage_analysis.Queue.{BoundedQueue, DequeueStatus, DequeueResult, push}
use paper_breakage_analysis.Pipeline.Nodes.{
  ProcessedFrame, Node, NodeOutcome, chain_process, and_then, pass_through, validity_check,
  ValidityCheckOptions,
}
use paper_breakage_analysis.Pipeline.Processor.{
  Processor, Turn, Ran, settle, process_view, process_packet, turn_on, take_turn, loop, run,
  is_rejected,
}

-- A node that passes a frame leaves its view as it is.
abbrev pub KeepsView : Node → Type 0
KeepsView n = (f g : ProcessedFrame) → n f ≡ NodeOutcome.passed g → g.frame ≡ f.frame

abbrev pub AllKeepView : List Node → Type 0
AllKeepView [] = Unit {0}
AllKeepView (n ∷ ns) = KeepsView n × AllKeepView ns

pub pass_through-KeepsView : KeepsView pass_through
unfolding pass_through
pass_through-KeepsView f g e = cc

pub validity_check-KeepsView : (o : ValidityCheckOptions) → KeepsView (validity_check o)
unfolding validity_check
validity_check-KeepsView o f g e = ground arith

and_then-passed :
    (m : NodeOutcome) (n : Node) {g : ProcessedFrame}
    → and_then m n ≡ NodeOutcome.passed g
    → (f : ProcessedFrame) × (m ≡ NodeOutcome.passed f) × (n f ≡ NodeOutcome.passed g)
and_then-passed (NodeOutcome.passed f) n e = (f, refl, e)
and_then-passed (NodeOutcome.refused x) n e = cc
and_then-passed (NodeOutcome.threw x) n e = cc
and_then-passed NodeOutcome.threw_unknown n e = cc

chain_process-KeepsView : (ns : List Node) → AllKeepView ns → KeepsView (chain_process ns)
unfolding chain_process
chain_process-KeepsView [] k f g e = cc
chain_process-KeepsView (n ∷ ns) k f g e =
    let (h, first, rest) = and_then-passed (n f) (chain_process ns) e in
    chain_process-KeepsView ns k.1 h g rest ∙ k.0 f h first

abbrev pub number_of : ProcessedFrame → ℕ
number_of f = f.frame.sequence_number

-- The numbers go up, but that the number 0 does not count as one.
abbrev pub AscendsFrom : ℕ → List ProcessedFrame → Type 0
AscendsFrom n [] = Unit {0}
AscendsFrom n (f ∷ fs) = ((n ≡ 0) ⊎ (n < number_of f)) × AscendsFrom (number_of f) fs

-- A later number to start from asks for more.
AscendsFrom-mono :
    (n m : ℕ) (fs : List ProcessedFrame) → n ≤ m → AscendsFrom m fs → AscendsFrom n fs
AscendsFrom-mono n m [] h a = tt
AscendsFrom-mono n m (f ∷ fs) h (inl a, b) = (inl (omega arith), b)
AscendsFrom-mono n m (f ∷ fs) h (inr a, b) = (inr (omega arith), b)

-- What one turn passes on, and the number that it leaves behind.
abbrev Passes : ℕ → Option ProcessedFrame → ℕ → Type 0
Passes n none m = n ≤ m
Passes n (some f) m = ((n ≡ 0) ⊎ (n < number_of f)) × (m ≡ number_of f)

abbrev TurnPasses : ℕ → Turn → Type 0
TurnPasses n t = Passes n t.forwarded t.processor.previous_sequence

settle_lem :
    (p : Processor) (output : BoundedQueue ProcessedFrame) (o : NodeOutcome) (n : ℕ)
    → ((n ≡ 0) ⊎ (n < p.previous_sequence))
    → ((g : ProcessedFrame) → o ≡ NodeOutcome.passed g → number_of g ≡ p.previous_sequence)
    → TurnPasses n (settle p output o)
unfolding settle
settle_lem p output (NodeOutcome.refused e) n h k = omega arith
settle_lem p output (NodeOutcome.threw e) n h k = omega arith
settle_lem p output NodeOutcome.threw_unknown n h k = omega arith
settle_lem p output (NodeOutcome.passed g) n h k =
    if-holds (TurnPasses n) (is_rejected (push output g).1) (λ e. omega arith)
      (λ e. (ground (arith, k g refl), sym (k g refl)))

process_view_lem :
    (p : Processor) (output : BoundedQueue ProcessedFrame) (r : Result FrameView)
    → AllKeepView p.chain
    → TurnPasses p.previous_sequence (process_view p output r)
unfolding process_view
process_view_lem p output (failure e) k = omega arith
process_view_lem p output (success view) k =
    if-holds (TurnPasses p.previous_sequence)
      (ltb 0 p.previous_sequence && leb view.sequence_number p.previous_sequence) (λ e. omega arith)
      (λ e.
        settle_lem _ output _ p.previous_sequence (newer p view e)
          (λ g h. ap (λ v. v.sequence_number) (chain_process-KeepsView p.chain k _ g h)))
  where
    newer :
        (p : Processor) (view : FrameView)
        → (ltb 0 p.previous_sequence && leb view.sequence_number p.previous_sequence) ≡ false
        → (p.previous_sequence ≡ 0) ⊎ (p.previous_sequence < view.sequence_number)
    newer p view e = ground arith

turn_on_lem :
    (clocks : Clocks) (p : Processor) (output : BoundedQueue ProcessedFrame) (duration : ℕ)
    (s : DequeueStatus) (f : Option FramePacket)
    → AllKeepView p.chain
    → TurnPasses p.previous_sequence (turn_on clocks p output duration s f)
unfolding turn_on process_packet
turn_on_lem clocks p output duration DequeueStatus.frame (some packet) k =
    if-holds (TurnPasses p.previous_sequence)
      (process_view p output (make_frame_view clocks packet)).leaves
      (λ e. process_view_lem p output (make_frame_view clocks packet) k)
      (λ e. process_view_lem p output (make_frame_view clocks packet) k)
turn_on_lem clocks p output duration DequeueStatus.frame none k = omega arith
turn_on_lem clocks p output duration DequeueStatus.timeout f k = omega arith
turn_on_lem clocks p output duration DequeueStatus.stopped f k = omega arith
turn_on_lem clocks p output duration DequeueStatus.closed f k = omega arith

abbrev SameChain : Processor → Turn → Type 0
SameChain p t = t.processor.chain ≡ p.chain

settle-SameChain :
    (p : Processor) (output : BoundedQueue ProcessedFrame) (o : NodeOutcome)
    → SameChain p (settle p output o)
unfolding settle
settle-SameChain p output (NodeOutcome.refused e) = refl
settle-SameChain p output (NodeOutcome.threw e) = refl
settle-SameChain p output NodeOutcome.threw_unknown = refl
settle-SameChain p output (NodeOutcome.passed g) =
    if-holds (SameChain p) (is_rejected (push output g).1) (λ e. refl) (λ e. refl)

process_view-SameChain :
    (p : Processor) (output : BoundedQueue ProcessedFrame) (r : Result FrameView)
    → SameChain p (process_view p output r)
unfolding process_view
process_view-SameChain p output (failure e) = refl
process_view-SameChain p output (success view) =
    if-holds (SameChain p)
      (ltb 0 p.previous_sequence && leb view.sequence_number p.previous_sequence) (λ e. refl)
      (λ e.
        settle-SameChain _ output _
        ∙ if-holds (λ (q : Processor). q.chain ≡ p.chain)
            (ltb 0 p.previous_sequence && ltb (inc_u64 p.previous_sequence) view.sequence_number)
            (λ f. refl) (λ f. refl))

turn_on-SameChain :
    (clocks : Clocks) (p : Processor) (output : BoundedQueue ProcessedFrame) (duration : ℕ)
    (s : DequeueStatus) (f : Option FramePacket)
    → SameChain p (turn_on clocks p output duration s f)
unfolding turn_on process_packet
turn_on-SameChain clocks p output duration DequeueStatus.frame (some packet) =
    if-holds (SameChain p) (process_view p output (make_frame_view clocks packet)).leaves
      (λ e. process_view-SameChain p output (make_frame_view clocks packet))
      (λ e. process_view-SameChain p output (make_frame_view clocks packet))
turn_on-SameChain clocks p output duration DequeueStatus.frame none = refl
turn_on-SameChain clocks p output duration DequeueStatus.timeout f = refl
turn_on-SameChain clocks p output duration DequeueStatus.stopped f = refl
turn_on-SameChain clocks p output duration DequeueStatus.closed f = refl

AscendsFrom-held :
    (n m : ℕ) (o : Option ProcessedFrame) (fs : List ProcessedFrame)
    → Passes n o m
    → AscendsFrom m fs
    → AscendsFrom n (held o ++ fs)
AscendsFrom-held n m none fs p a = AscendsFrom-mono n m fs p a
AscendsFrom-held n m (some f) fs (p, e) a = (p, subst (λ x. AscendsFrom x fs) e a)

AscendsFrom-last : (n m : ℕ) (o : Option ProcessedFrame) → Passes n o m → AscendsFrom n (held o)
AscendsFrom-last n m none p = tt
AscendsFrom-last n m (some f) (p, e) = (p, tt)

loop-AscendsFrom :
    (clocks : Clocks) (p : Processor) (output : BoundedQueue ProcessedFrame)
    (rs : List (DequeueResult FramePacket × ℕ))
    → AllKeepView p.chain
    → AscendsFrom p.previous_sequence (loop clocks p output rs).forwarded
unfolding loop take_turn
loop-AscendsFrom clocks p output [] k = tt
loop-AscendsFrom clocks p output ((r, duration) ∷ rs) k =
    let turn = turn_on clocks p output duration r.status r.frame in
    let passes = turn_on_lem clocks p output duration r.status r.frame k in
    let same = turn_on-SameChain clocks p output duration r.status r.frame in
    if-holds (λ (x : Ran). AscendsFrom p.previous_sequence x.forwarded) turn.leaves
      (λ e.
        AscendsFrom-last p.previous_sequence turn.processor.previous_sequence turn.forwarded passes)
      (λ e.
        AscendsFrom-held p.previous_sequence turn.processor.previous_sequence turn.forwarded _
          passes
          (loop-AscendsFrom clocks turn.processor turn.output rs (subst AllKeepView (sym same) k)))

-- Where the nodes of the chain leave the view of a frame as it is, the frames that a worker pushes to
-- the algorithm queue in one run, whatever packets come, ascend strictly in their sequence numbers,
-- except after a frame numbered 0: no duplicate and no frame out of order is passed on.
pub run-AscendsFrom :
    (clocks : Clocks) (p : Processor) (output : BoundedQueue ProcessedFrame)
    (rs : List (DequeueResult FramePacket × ℕ))
    → AllKeepView p.chain
    → AscendsFrom 0 (run clocks p output rs).forwarded
unfolding run
run-AscendsFrom clocks p output rs k =
    loop-AscendsFrom clocks (record p { previous_sequence = 0 }) output rs k
