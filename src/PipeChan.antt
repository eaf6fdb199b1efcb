-- ===== src/PipeChan.antt =====
-- cmd/pipechan.go: the pipe of two goroutines between an input and an output channel. A channel is
-- the list of what it holds. All channels that the reader has not read to their end are kept in the
-- order in which they were made: those that the writer has closed, and then its current one. `taken`
-- says whether the reader has already received the first of them, and the others wait in `channels`.
-- Closing a channel and sending the next one are one step: the writer only has to wait for it while
-- the reader is with an older channel, which does not see whether this one is closed. The consumer of
-- the output is taken to receive every element at once: `output` is what was sent to it so far, and a
-- send to it, which in the code waits while the output channel is full, never waits here. The channels
-- in between are buffered: a channel of no capacity, whose sender hands its element over to the waiting
-- receiver, is not modelled, and with the capacity 0 the writer of the model can send nothing.
pub mod Order
pub mod Fits
pub mod Capacity
pub mod End
use oss_mc.Base.{
  ℕ, ◌+◌, ◌*◌, ◌/◌, Bool, true, false, ◌&&◌, List, [], ◌∷◌, ◌++◌, Option, none, some, ◌≡◌, length,
  leb, ltb, if◌then◌else◌,
}

-- Where the writer is: it receives, tests the current channel for growth and then for shrinking,
-- each with the element in hand, sends the element, or has ended.
pub data Writer {ℓ} (E : Type ℓ) : Type ℓ where
  receives : Writer E
  grows : E → Writer E
  shrinks : E → Writer E
  sends : E → Writer E
  ended : Writer E

pub record Pipe {ℓ} (E : Type ℓ) : Type ℓ where
  pub input : List E
  pub writer : Writer E
  pub behind : List (List E)
  pub current : List E
  pub cap : ℕ
  pub taken : Bool
  -- what the reader has received, and sends to the output in this order
  pub output : List E
  pub closed : Bool

-- how many channels `channels` holds at most
abbrev pub most_channels : ℕ
most_channels = 1000

abbrev pub one_unless : Bool → ℕ
one_unless true = 0
one_unless false = 1

module _ {ℓ} {E : Type ℓ} where
  abbrev pub opened : ℕ → List E → Pipe E
  opened capacity input = record {
    input = input;
    writer = receives;
    behind = [];
    current = [];
    cap = capacity;
    taken = false;
    output = [];
    closed = false;
  }

  -- the channels that wait in `channels`
  abbrev pub waiting : Pipe E → ℕ
  waiting s = length s.behind + one_unless s.taken

  -- the current channel is closed and a new one is sent to the reader, if there is room for it
  unfoldable pub switch : ℕ → Writer E → Pipe E → Option (Pipe E)
  switch cap w s =
      if ltb (waiting s) most_channels
      then some
          (record s { behind = s.behind ++ s.current ∷ []; current = []; cap = cap; writer = w })
      else none

  abbrev pub receive : List E → Pipe E → Pipe E
  receive [] s = record s { writer = ended }
  receive (x ∷ xs) s = record s { input = xs; writer = grows x }

  unfoldable pub writer_move : ℕ → Writer E → Pipe E → Option (Pipe E)
  writer_move capacity receives s = some (receive s.input s)
  writer_move capacity (grows x) s =
      if leb (s.cap / 2) (length s.current)
      then switch (s.cap * 2) (shrinks x) s
      else some (record s { writer = shrinks x })
  writer_move capacity (shrinks x) s =
      if leb capacity (length s.current) && leb (length s.current) (s.cap / 4)
      then switch (s.cap / 2) (sends x) s
      else some (record s { writer = sends x })
  writer_move capacity (sends x) s =
      if ltb (length s.current) s.cap
      then some (record s { current = s.current ++ x ∷ []; writer = receives })
      else none
  writer_move capacity ended s = none

  -- one step of the first goroutine, none if it waits
  abbrev pub writer_step : ℕ → Pipe E → Option (Pipe E)
  writer_step capacity s = writer_move capacity s.writer s

  abbrev pub is_ended : Writer E → Bool
  is_ended ended = true
  is_ended receives = false
  is_ended (grows x) = false
  is_ended (shrinks x) = false
  is_ended (sends x) = false

  abbrev pub read_current : List E → Pipe E → Option (Pipe E)
  read_current [] s = if is_ended s.writer then some (record s { closed = true }) else none
  read_current (v ∷ vs) s = some (record s { current = vs; output = s.output ++ v ∷ [] })

  abbrev pub read_first : List (List E) → Pipe E → Option (Pipe E)
  read_first [] s = read_current s.current s
  read_first ([] ∷ bs) s = some (record s { behind = bs; taken = false })
  read_first ((v ∷ vs) ∷ bs) s = some (record s { behind = vs ∷ bs; output = s.output ++ v ∷ [] })

  -- one step of the second goroutine, none if it waits or has ended
  unfoldable pub reader_step : Pipe E → Option (Pipe E)
  reader_step s =
      if s.closed
      then none
      else if s.taken
      then read_first s.behind s
      else some (record s { taken = true })

  -- What the two goroutines can come to, in any order of their steps.
  pub data Reach (capacity : ℕ) (input : List E) : Pipe E → Type ℓ where
    start : Reach capacity input (opened capacity input)
    by_writer :
        {s t : Pipe E}
        → Reach capacity input s
        → writer_step capacity s ≡ some t
        → Reach capacity input t
    by_reader :
        {s t : Pipe E} → Reach capacity input s → reader_step s ≡ some t → Reach capacity input t
