-- ===== src/Examples/Parts.antt =====
-- The theorems on command lines, timers, streams, hexadecimal text and a bus alone at concrete inputs.
use vcmp_lua.Event.Tidy.{is_tidy, unbinds, run_bus-is_tidy, starts_frame, binds, run_bus, BusOp}
use vcmp_lua.Stream.{empty_stream, write_u32, write_byte, write_string, write_number, Stream}
use vcmp_lua.Stream.Trip.{
  write_all, a_byte, a_string, read_all-write_all, received, a_number, encode_all, Item, read_all,
  write_item,
}
use vcmp_lua.Timer.Due.{due_ids_lem, times_due, advance-is_due, times, Rising}
use vcmp_lua.Hash.Digits.{unhex, unhex-hex}
use vcmp_lua.Hash.{hex}
use vcmp_lua.Command.Words.{split_command-join, without_first, join_words}
use vcmp_lua.Command.{split_command}
use vcmp_lua.Timer.{advance, default_timer, due_ids, Scheduler, Timer, is_due}
use vcmp_lua.Event.{event_index, Handler, player_pm, EventBus, event_name}
use vcmp_lua.Prelude.{
  negsuc, length, arith, map, ok, pos, refl, ◌+◌, ◌≤◌, [], false, some, true, ◌∷◌, ◌≡◌, List, ℕ,
}
use vcmp_lua.Event

unhex-hex_example : unhex (hex (0 ∷ 171 ∷ 255 ∷ [])) ≡ some (0 ∷ 171 ∷ 255 ∷ [])
unhex-hex_example = unhex-hex (0 ∷ 171 ∷ 255 ∷ []) refl

-- "give 5".
abbrev some_words : List (List ℕ)
some_words = (103 ∷ 105 ∷ 118 ∷ 101 ∷ []) ∷ (53 ∷ []) ∷ []

split_command-join_example :
    split_command (join_words some_words) ≡ (some_words, join_words (without_first some_words))
split_command-join_example = split_command-join some_words refl

-- A timer of 50 ms that is 70 ms late.
abbrev some_timer : Timer
some_timer = record default_timer { interval = 50; due = 30 }

advance-is_due_example :
    (is_due 100 (advance 100 some_timer) ≡ false)
    × ((advance 100 some_timer).due ≤ 100 + 50)
    × (30 + 50 ≤ (advance 100 some_timer).due)
advance-is_due_example = advance-is_due 100 some_timer refl (omega arith)

abbrev some_scheduler : Scheduler
some_scheduler = record { timers = (1, some_timer) ∷ (2, some_timer) ∷ []; next_id = 3 }

due_ids_lem_example :
    (es : List (ℕ × ℕ)) × (due_ids some_scheduler 100 ≡ map (λ e. e.1) es)
    × Rising es
    × ((x : ℕ × ℕ) → times x es ≡ times_due 100 x some_scheduler.timers)
due_ids_lem_example = due_ids_lem some_scheduler 100

-- The number -5, a text and a byte, in a stream.
abbrev some_items : List Item
some_items = a_number (negsuc 4) ∷ a_string (104 ∷ 105 ∷ []) ∷ a_byte (pos 7) ∷ []

abbrev some_stream : Stream
some_stream = record { bytes = encode_all some_items; read = 0 }

written : write_all some_items empty_stream ≡ ok some_stream
unfolding write_item write_number write_string write_byte write_u32
written = refl

read_all-write_all_example :
    read_all some_items some_stream
    ≡ ok (record some_stream { read = length some_stream.bytes }, map received some_items)
read_all-write_all_example = read_all-write_all some_items some_stream written

abbrev some_bus_calls : List BusOp
some_bus_calls = binds true 0 5 ∷ starts_frame ∷ unbinds true 0 5 ∷ []

run_bus-is_tidy_example : is_tidy (run_bus Event.new some_bus_calls) ≡ true
run_bus-is_tidy_example = run_bus-is_tidy some_bus_calls
