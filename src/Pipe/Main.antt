-- ===== src/Pipe/Main.antt =====
-- The main function of source/pipe/pipe.c, behind parse_arguments, and what it does with the two ends of
-- the pipe. `ends` is how the loop of a side ends, whose calls are those of the module above.
use ipc_bench.Prelude.{ℕ, zero, suc, ◌≡◌, ◌⊎◌, Bool, true, false, none, some, [], ◌∷◌, arith}
use ipc_bench.Setup.{
  History, Kernel, Result, returned, M, ◌>>=◌, ◌>>◌, pure, exit, call, PipeEnd, read_end, write_end,
  make_pipe, fork, close_end, open_end,
}

abbrev pub other_end : PipeEnd → PipeEnd
other_end read_end = write_end
other_end write_end = read_end

unfoldable pub open_stream : Kernel → PipeEnd → M ℕ
open_stream kernel to_open = do
  call kernel (close_end (other_end to_open))
  stream ← call kernel (open_end to_open)
  elim stream [ none ↦ exit | some s ↦ pure s ]

abbrev pub loop : Result (Unit {0}) → M (Unit {0})
loop ends h = (ends, h)

unfoldable pub client_communicate : Kernel → Result (Unit {0}) → M (Unit {0})
unfolding open_stream
client_communicate kernel ends = do
  open_stream kernel read_end
  loop ends
  call kernel (close_end write_end)
  pure tt

unfoldable pub server_communicate : Kernel → Result (Unit {0}) → M (Unit {0})
unfolding open_stream
server_communicate kernel ends = do
  open_stream kernel write_end
  loop ends
  call kernel (close_end write_end)
  pure tt

unfoldable pub communicate : Kernel → (client server : Result (Unit {0})) → M (Unit {0})
unfolding client_communicate server_communicate
communicate kernel client server = do
  pid ← call kernel fork
  elim pid [
    | none ↦ exit
    | some n ↦ elim n [
      | zero ↦ client_communicate kernel client
      | suc _ ↦ server_communicate kernel server
    ]
  ]

unfoldable pub main : Kernel → (client server : Result (Unit {0})) → M (Unit {0})
unfolding communicate
main kernel client server = do
  code ← call kernel make_pipe
  elim code [ none ↦ exit | some _ ↦ communicate kernel client server ]

-- The ends that the process has open.
pub record Ends : Type 0 where
  pub reading : Bool
  pub writing : Bool

abbrev pub without : PipeEnd → Ends → Ends
without read_end e = record e { reading = false }
without write_end e = record e { writing = false }

abbrev pub open_ends : History → Ends
open_ends [] = record { reading = false; writing = false }
open_ends (make_pipe ∷ h) = record { reading = true; writing = true }
open_ends (close_end end ∷ h) = without end (open_ends h)
open_ends (_ ∷ h) = open_ends h

-- The last call closed an end that was closed already.
abbrev pub ClosesAgain : History → Type 0
ClosesAgain (close_end read_end ∷ h) = (open_ends h).reading ≡ false
ClosesAgain (close_end write_end ∷ h) = (open_ends h).writing ≡ false
ClosesAgain _ = ⊥

-- When `main` returns, the server has no end left open; the client has closed the writing end twice
-- and still has the reading end.
main_ends :
    (kernel : Kernel) (client server : Result (Unit {0}))
    → (main kernel client server []).0 ≡ returned tt
    → let h = (main kernel client server []).1 in
      ((server ≡ returned tt) × (open_ends h ≡ record { reading = false; writing = false }))
      ⊎ ((client ≡ returned tt)
          × (open_ends h ≡ record { reading = true; writing = false })
          × ClosesAgain h)
unfolding main
main_ends kernel client server e = ground arith
