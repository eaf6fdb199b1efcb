-- ===== src/Tests/Pipes.antt =====
-- The pipe of cmd/pipechan.go with channels of one element: a run of its two goroutines.
use oss_mc.Base.{ℕ, [], ◌∷◌, none, true, false, ◌≡◌, ◌≢◌, ◌⊎◌, refl, arith}
use oss_mc.PipeChan.{
  Pipe, receives, sends, ended, switch, writer_move, writer_step, reader_step, Reach, start,
  by_writer, by_reader,
}
use oss_mc.PipeChan.Fits.{Fits}
use oss_mc.PipeChan.Capacity.{Reach-Fits}
use oss_mc.PipeChan.End.{Reach-goes_on}
use oss_mc.PipeChan.Order.{content, Reach-content}

-- with a new channel of twice the size, behind the first one, which is closed
abbrev tested_pipe : Pipe ℕ
tested_pipe = record {
  input = [];
  writer = sends 7;
  behind = [] ∷ [];
  current = [];
  cap = 2;
  taken = false;
  output = [];
  closed = false;
}

tested_pipe-Reach : Reach 1 (7 ∷ []) tested_pipe
unfolding switch writer_move
tested_pipe-Reach = by_writer (by_writer (by_writer start refl) refl) refl

abbrev sent_pipe : Pipe ℕ
sent_pipe = record tested_pipe { writer = receives; current = 7 ∷ [] }

sent_pipe-Reach : Reach 1 (7 ∷ []) sent_pipe
unfolding switch writer_move
sent_pipe-Reach = by_writer tested_pipe-Reach refl

abbrev ended_pipe : Pipe ℕ
ended_pipe = record {
  input = [];
  writer = ended;
  behind = [];
  current = [];
  cap = 2;
  taken = true;
  output = 7 ∷ [];
  closed = true;
}

ended_pipe-Reach : Reach 1 (7 ∷ []) ended_pipe
unfolding switch writer_move reader_step
ended_pipe-Reach =
    by_reader
      (by_reader (by_reader (by_reader (by_reader (by_writer sent_pipe-Reach refl) refl) refl) refl)
        refl)
      refl

Reach-content_example : content sent_pipe ≡ 7 ∷ []
Reach-content_example = Reach-content 1 (7 ∷ []) sent_pipe sent_pipe-Reach

Reach-Fits_example : Fits 1 sent_pipe
Reach-Fits_example = Reach-Fits 1 (7 ∷ []) sent_pipe (omega arith) sent_pipe-Reach

Reach-goes_on_example : (writer_step 1 sent_pipe ≢ none) ⊎ (reader_step sent_pipe ≢ none)
Reach-goes_on_example = Reach-goes_on 1 (7 ∷ []) sent_pipe (omega arith) sent_pipe-Reach refl
