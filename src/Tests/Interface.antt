-- ===== src/Tests/Interface.antt =====
-- A streaming response with a prelude of two bytes, and the theorems on it.
use lambda_lws.Prelude.{ℕ, ◌≡◌, refl, true, false, List, [], ◌∷◌, ◌++◌, take, drop, arith}
use lambda_lws.Interface.Stream.{
  pause, sent, send_prelude, send_separator, send_body, send_parts, handle_read,
}
use lambda_lws.Interface.Stream.Reads.{remaining, answer, handle_read_lem}
use lambda_lws.Interface.Stream.Schedule.{
  Event, read, write, finish, Fits, bytes_of, step, run, written, start, response, run-response,
  run-handle_read,
}

program : List ℕ
unfolding send_prelude send_separator send_body send_parts handle_read remaining answer bytes_of
    step run written Fits
program = []

abbrev two : List ℕ
two = 7 ∷ 8 ∷ []

-- A read of four bytes, one byte written, the end, and a read of sixteen.
abbrev short_run : List Event
short_run = read 1 4 ∷ write (9 ∷ []) ∷ finish ∷ read 1 16 ∷ []

first_read : (handle_read 1 4 (start two)).0 ≡ sent (7 ∷ 8 ∷ 0 ∷ 0 ∷ [])
unfolding program
first_read = refl

paused : (handle_read 1 16 (run (read 1 16 ∷ []) (start two)).1).0 ≡ pause
unfolding program
paused = refl

sent_all : (run short_run (start two)).0 ≡ 7 ∷ 8 ∷ 0 ∷ 0 ∷ 0 ∷ 0 ∷ 0 ∷ 0 ∷ 0 ∷ 0 ∷ 9 ∷ []
unfolding program
sent_all = refl

handle_read_lem_example :
    ((handle_read 1 4 (start two)).0 ≡ answer false (take 4 (remaining (start two))))
    × (remaining (handle_read 1 4 (start two)).1 ≡ drop 4 (remaining (start two)))
    × ((handle_read 1 4 (start two)).1.streaming_eof ≡ false)
handle_read_lem_example = handle_read_lem 1 4 (start two) (omega arith)

run-response_example :
    (run short_run (start two)).0 ++ remaining (run short_run (start two)).1
    ≡ response two (written short_run)
unfolding Fits
run-response_example = run-response two short_run (omega arith, (tt, (tt, (omega arith, tt))))

run-handle_read_example :
    ((run short_run (start two)).0 ≡ response two (written short_run))
    × ((run short_run (start two)).1.streaming_eof ≡ true)
unfolding program
run-handle_read_example =
    run-handle_read two short_run 1 16 (omega arith, (tt, (tt, (omega arith, tt)))) (omega arith)
      (omega arith) refl
