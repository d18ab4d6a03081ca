-- ===== src/Setup/Memory.antt =====
-- The memory that a history of calls has set up: the segments attached, the files mapped and how long
-- a file was made.
use ipc_bench.Prelude.{ℕ, ◌+◌, ◌≤◌, ◌≡◌, ◌≢◌, Option, none, some, [], ◌∷◌, max, ltb, if◌then◌else◌}
use ipc_bench.Prelude.Int.{ℤ, pos, negsuc}
use ipc_bench.Setup.{
  Call, History, Kernel, Descriptor, write_byte, get_segment, attach, map_file, seek, touch,
}

-- Each access of the history has `R`, for its address, its bytes and the calls before it.
abbrev pub Touches : (Option ℕ → ℕ → History → Type 0) → History → Type 0
Touches R [] = Unit
Touches R (touch a bytes ∷ h) = R a bytes h × Touches R h
Touches R (_ ∷ h) = Touches R h

-- The accesses of the history.
abbrev pub accesses : History → ℕ
accesses [] = 0
accesses (touch a bytes ∷ h) = let rest = accesses h in rest + 1
accesses (_ ∷ h) = accesses h

-- The last call of the history attached a segment at `a`, an address other than -1, which the call before had asked for with so
-- many bytes or more.
abbrev pub IsAttached : Kernel → Option ℕ → ℕ → History → Type 0
IsAttached kernel a bytes h =
    (key : Option ℕ) × (id asked : ℕ) × (before : History) × (h
      ≡ attach id ∷ get_segment key asked ∷ before)
    × (kernel.answer before (get_segment key asked) ≡ some id)
    × (kernel.answer (get_segment key asked ∷ before) (attach id) ≡ a)
    × (a ≢ none)
    × (bytes ≤ asked)

-- `lseek` to an offset that is not negative, and `write` of one byte, which makes the file longer: the
-- place in the file, and its end since the program has opened it.
abbrev pub go_to : ℤ → ℕ × ℕ → ℕ × ℕ
go_to (pos n) (place, end) = (n, end)
go_to (negsuc n) (place, end) = (place, end)

abbrev pub add_byte : Option ℕ → ℕ × ℕ → ℕ × ℕ
add_byte none (place, end) = (place, end)
add_byte (some n) (place, end) = if ltb 0 n then (place + 1, max end (place + 1)) else (place, end)

abbrev pub file_state : Kernel → History → ℕ × ℕ
file_state kernel [] = (0, 0)
file_state kernel (seek fd offset ∷ h) = go_to offset (file_state kernel h)
file_state kernel (write_byte fd ∷ h) =
    add_byte (kernel.answer h (write_byte fd)) (file_state kernel h)
file_state kernel (_ ∷ h) = file_state kernel h

abbrev pub file_end : Kernel → History → ℕ
file_end kernel h = (file_state kernel h).1

-- The call before the last mapped a file at `a`, an address other than -1, with so many bytes or more;
-- the last closed it.
abbrev pub IsMapped : Kernel → Option ℕ → ℕ → ℕ → History → Type 0
IsMapped kernel a bytes mapped h =
    (fd closed : Descriptor) × (before : History) × (h
      ≡ Call.close fd ∷ map_file closed mapped ∷ before)
    × (kernel.answer before (map_file closed mapped) ≡ a)
    × (a ≢ none)
    × (bytes ≤ mapped)
