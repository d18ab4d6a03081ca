-- ===== src/Tcp/Rounds.antt =====
-- The rounds of the loops over TCP sockets: the events of each, and its two transfers.
use ipc_bench.Prelude.{true, List, [], ◌∷◌, map}
use ipc_bench.Transfer.Socket.{SocketCall}
use ipc_bench.Transfer.Spec.{Fits}
use ipc_bench.Window.{Events, Turn}
use ipc_bench.Window.Laws.{IsLawfulTurn, AllLawful}
use ipc_bench.Tcp.{
  read_from_socket, write_to_socket, flag_of, read_from_socket-IsTransfer,
  write_to_socket-IsTransfer,
}

-- What the kernel answers to the calls of one round.
pub record KernelRound : Type 0 where
  pub events : Events
  pub read : SocketCall
  pub write : SocketCall

abbrev pub turn_of : KernelRound → Turn
turn_of round = record {
  events = round.events;
  read_from = λ chunk num. (read_from_socket round.read chunk num true).meta;
  write_to = λ chunk num. (write_to_socket round.write chunk num true).meta;
}

-- No call of the round returns more than it was asked for.
abbrev pub IsFit : KernelRound → Type 0
IsFit round = Fits (round.read (flag_of true)) × Fits (round.write (flag_of true))

abbrev pub AllFit : List KernelRound → Type 0
AllFit [] = Unit
AllFit (round ∷ rounds) = IsFit round × AllFit rounds

pub turn_of-IsLawful : (round : KernelRound) → IsFit round → IsLawfulTurn (turn_of round)
turn_of-IsLawful round fit = record {
  reads = record {
    bounded = λ chunk num h pos.
        (read_from_socket-IsTransfer round.read chunk num true fit.0 h pos).bounded;
    split = λ chunk num h pos.
        (read_from_socket-IsTransfer round.read chunk num true fit.0 h pos).split;
  };
  writes = record {
    bounded = λ chunk num h pos.
        (write_to_socket-IsTransfer round.write chunk num true fit.1 h pos).bounded;
    split = λ chunk num h pos.
        (write_to_socket-IsTransfer round.write chunk num true fit.1 h pos).split;
  };
}

pub turns-AllLawful : (rounds : List KernelRound) → AllFit rounds → AllLawful (map turn_of rounds)
turns-AllLawful [] fit = tt
turns-AllLawful (round ∷ rounds) fit = (turn_of-IsLawful round fit.0, turns-AllLawful rounds fit.1)
