-- ===== src/Examples/Commands.antt =====
-- Commands of the command line.
use ex2_services.Base.{
  ℕ, ◌+◌, ◌-◌, ◌<◌, ◌≤◌, ◌⊎◌, ◌≡◌, refl, arith, true, false, none, some, [], ◌∷◌, ltb,
  if◌then◌else◌, length,
}
use ex2_services.Csp.Packet.{Packet, satr_error, status_byte, minus_one}
use ex2_services.Housekeeping.Timestamps.{done, null_pointer}
use ex2_services.Cli.App.{
  cloned, send_failed, freed, Shell, Outcome, filled, answer_loop, free, cli_app, finished,
  cli_packet,
}
use ex2_services.Cli.Buffers.{given_back, taken, failed_sends, cli_packet_balance}
use ex2_services.Cli.Ends.{Ends, cli_app_ends}
use ex2_services.Cli.Files.{Volume, Stat, at_first, line, empty_line}
use ex2_services.Cli.Listing.{ls_answers, HasEntries, ls_lists}
use ex2_services.Cli.{untouched, time_is, prv_time_command}
use ex2_services.Cli.Time.{time_command_unguarded}
use ex2_services.TimeManagement.{min_year, time_management_app}
use ex2_services.Examples.Toys.{network, packet_of, packet_of-IsBytes, clock}

-- An interpreter that has as many calls left as its world tells, and a link that fails when none is
-- left; clones are in buffer 6.
abbrev shell : Shell ℕ
shell = record {
  max_input_size = 8;
  max_output_size = 4;
  clone = λ p w. (some (record p { buffer = 6 }), w);
  send = λ p w. (ltb 0 w, w);
  process_command = λ input w. (ltb 0 w, λ i. 65, w - 1);
}

shell-Ends : Ends shell
shell-Ends = record {
  left = λ w. w;
  call_less = λ input w more. ground arith;
  send_same = λ p w. omega arith;
  clone_same = λ p w. omega arith;
}

cli_app_ends_example :
    let ran = cli_app shell 3 (packet_of (0 ∷ 2 ∷ 104 ∷ 105 ∷ [])) 2 in
    ((outcome : Outcome ℕ) × (ran ≡ done outcome))
    ⊎ ((ran ≡ null_pointer) × ((q : Packet) × (x : ℕ) × ((shell.clone q x).0 ≡ none)))
unfolding shell-Ends
cli_app_ends_example =
    cli_app_ends shell shell-Ends 3 (packet_of (0 ∷ 2 ∷ 104 ∷ 105 ∷ [])) 2 (omega arith)
      (omega arith)

-- The first send fails, and the packet is freed twice.
cli_packet_balance_example :
    let p = packet_of (0 ∷ 2 ∷ 104 ∷ 105 ∷ []) in
    let answer = filled shell p false (λ i. 65) in
    let events = cloned 6 ∷ send_failed answer ∷ freed 6 ∷ freed 5 ∷ freed 5 ∷ [] in
    (cli_packet shell 3 p 0 ≡ done (events, 0)) × (given_back 5 events ≡ 2) × (1 ≤ 1)
unfolding cli_app answer_loop free finished taken failed_sends
cli_packet_balance_example =
    let p = packet_of (0 ∷ 2 ∷ 104 ∷ 105 ∷ []) in
    cli_packet_balance shell 5 3 p 0
      (
        satr_error,
        cloned 6 ∷ send_failed (filled shell p false (λ i. 65)) ∷ freed 6 ∷ freed 5 ∷ [],
        0,
      )
      refl

-- A volume with one directory of two entries; the world counts the entries read.
abbrev described : Stat
described = record {
  st_dev = 1;
  st_ino = 2;
  st_mode = 3;
  st_nlink = 1;
  st_size = 40;
  st_blocks = 1;
}

abbrev volume : Volume ℕ
volume = record {
  errno = λ w. 0;
  clear_errno = λ w. w;
  getcwd = λ w. (some (47 ∷ []), w);
  chdir = λ p w. (true, w);
  mkdir = λ p w. (true, w);
  rmdir = λ p w. (true, w);
  unlink = λ p w. (true, w);
  transact = λ p w. (true, w);
  open_new = λ p w. (some 3, w);
  open_rdonly = λ p w. (some 3, w);
  close = λ fd w. w;
  fstat = λ fd w. (some described, w);
  opendir = λ name w. (some 9, 0);
  readdir = λ dir w. (if ltb w 2 then some (97 ∷ w ∷ []) else none, w + 1);
  closedir = λ dir w. w;
}

ls_lists_example :
    ls_answers volume 3 at_first 0
    ≡ some (line (97 ∷ 0 ∷ []) ∷ line (97 ∷ 1 ∷ []) ∷ empty_line ∷ [], at_first)
unfolding HasEntries
ls_lists_example =
    ls_lists volume (47 ∷ []) 9 ((97 ∷ 0 ∷ []) ∷ (97 ∷ 1 ∷ []) ∷ []) 0 refl refl
      (refl, (refl, (refl, refl)))

time_command_unguarded_example :
    let (text, w₁) = prv_time_command clock length 1 (λ i. some (49 ∷ 50 ∷ [])) 7 in
    let (report, answer, w₂) =
      time_management_app network clock (packet_of (11 ∷ 0 ∷ 0 ∷ 0 ∷ 2 ∷ [])) 7 in
    (text ≡ untouched)
    × (prv_time_command clock length 0 (λ i. some (49 ∷ 50 ∷ [])) w₁ ≡ (time_is 2, w₁))
    × ((min_year < 2) ⊎ ((w₂ ≡ 7) × (answer.bytes status_byte ≡ minus_one)))
time_command_unguarded_example =
    time_command_unguarded network clock length (λ i. some (49 ∷ 50 ∷ [])) (49 ∷ 50 ∷ [])
      (packet_of (11 ∷ 0 ∷ 0 ∷ 0 ∷ 2 ∷ [])) 7 (λ t x ok. refl) refl refl
      (packet_of-IsBytes (11 ∷ 0 ∷ 0 ∷ 0 ∷ 2 ∷ []) refl) refl refl
