-- ===== src/Fifo/Rounds.antt =====
-- The rounds of the loops over the named pipes: the events of each, and its two transfers.
use ipc_bench.Prelude.{List, [], ◌∷◌, map}
use ipc_bench.Transfer.{Call}
use ipc_bench.Transfer.Spec.{Fits}
use ipc_bench.Window.{Events, Turn}
use ipc_bench.Window.Laws.{IsLawfulTurn, AllLawful}
use ipc_bench.Fifo.{
  read_from_pipe, write_to_pipe, read_from_pipe-IsTransfer, write_to_pipe-IsTransfer,
}

-- What the kernel answers to the calls of one round.
pub record KernelRound : Type 0 where
  pub events : Events
  pub read : Call
  pub write : Call

abbrev pub turn_of : KernelRound → Turn
turn_of round = record {
  events = round.events;
  read_from = read_from_pipe round.read;
  write_to = write_to_pipe round.write;
}

-- No call of the round returns more than it was asked for.
abbrev pub IsFit : KernelRound → Type 0
IsFit round = Fits round.read × Fits round.write

abbrev pub AllFit : List KernelRound → Type 0
AllFit [] = Unit
AllFit (round ∷ rounds) = IsFit round × AllFit rounds

pub turn_of-IsLawful : (round : KernelRound) → IsFit round → IsLawfulTurn (turn_of round)
turn_of-IsLawful round fit = record {
  reads = record {
    bounded =
        λ chunk num h pos. (read_from_pipe-IsTransfer round.read chunk num fit.0 h pos).bounded;
    split = λ chunk num h pos. (read_from_pipe-IsTransfer round.read chunk num fit.0 h pos).split;
  };
  writes = record {
    bounded =
        λ chunk num h pos. (write_to_pipe-IsTransfer round.write chunk num fit.1 h pos).bounded;
    split = λ chunk num h pos. (write_to_pipe-IsTransfer round.write chunk num fit.1 h pos).split;
  };
}

pub turns-AllLawful : (rounds : List KernelRound) → AllFit rounds → AllLawful (map turn_of rounds)
turns-AllLawful [] fit = tt
turns-AllLawful (round ∷ rounds) fit = (turn_of-IsLawful round fit.0, turns-AllLawful rounds fit.1)
