-- ===== src/Examples/Disk.antt =====
-- A data file in memory, and records that are written to it.
use ex2_services.Base.{
  ℕ, ◌+◌, ◌-◌, ◌*◌, ◌≡◌, refl, sym, ap, inl, arith, Bool, false, ◌||◌, not, Option, none, some,
  List, [], ◌∷◌, length, ltb, if◌then◌else◌,
}
use ex2_services.Csp.Bytes.{little, Memory, put, slice}
use ex2_services.Housekeeping.State.{
  Flags, creat_excl, creat, rdonly, RedFs, AllSystemsHousekeeping,
}
use ex2_services.Housekeeping.Config.{exists}
use ex2_services.Housekeeping.Storage.{
  get_size_of_housekeeping, write_all, write_hk_to_file, read_timeorder, read_all,
  read_hk_from_file,
}
use ex2_services.Housekeeping.Storage.Posix.{Posix}
use ex2_services.Housekeeping.Storage.Parts.{NoneShort}
use ex2_services.Housekeeping.Storage.Record.{Fits}
use ex2_services.Housekeeping.Storage.RoundTrip.{AllWritten, write_hk-read_hk, write_hk-apart}
use ex2_services.Examples.Toys.{sizes, collected}

pub record Disk : Type 0 where
  pub bytes : Memory
  pub size : ℕ
  pub place : ℕ
  pub failed : Bool

abbrev refuses : Flags → Disk → Bool
refuses creat_excl w = ltb 0 w.size
refuses creat w = false
refuses rdonly w = ltb w.size 1

abbrev longer : ℕ → ℕ → ℕ
longer a b = if ltb a b then b else a

abbrev disk : RedFs Disk
disk = record {
  open_file = λ f flags w. (
    if refuses flags w then none else some 3,
    record w { place = 0; failed = w.failed || refuses flags w },
  );
  write_file = λ fd bs w. record w {
    bytes = put w.place bs w.bytes;
    size = longer w.size (w.place + length bs);
    place = w.place + length bs;
  };
  write_null = λ fd w. w;
  read_file = λ fd n w. (slice w.place n w.bytes, record w { place = w.place + n });
  read_null = λ fd w. w;
  seek_set = λ fd n w. record w { place = n };
  seek_cur = λ fd n w. record w { place = w.place + n };
  close_file = λ fd w. w;
  unlink = λ f w. record w { size = 0 };
  clear_errno = λ w. record w { failed = false };
  no_error = λ w. not w.failed;
  is_eexist = λ w. w.failed;
}

the_place : {a b : ℕ} → ◌≡◌ {A = Option ℕ} (some a) (some b) → a ≡ b
the_place same = ground arith

disk_laws : Posix disk
disk_laws = record {
  contents = λ w. w.bytes;
  size = λ w. w.size;
  position = λ w fd. some w.place;
  open_position = λ flags w w' fd opened. ap (λ q. some q.1.place) (sym opened);
  open_contents = λ flags w. (refl, refl);
  open_present = λ w there. ground arith;
  clear_contents = λ w. (refl, refl, refl);
  close_contents = λ fd w. (refl, refl);
  seek_contents = λ fd n w. (refl, refl);
  seek_position = λ fd n p w at. refl;
  written = λ fd bs w. length bs;
  write_no_error = λ fd bs w good. good;
  write_contents =
      λ fd p bs w at good whole. rw (the_place at) (refl, refl, ground arith, ground arith);
  read_no_error = λ fd n w good. good;
  read_contents = λ fd n p w at inside good. rw (the_place at) (refl, refl, refl, refl);
}

disk_writes_all : (fd : ℕ) (parts : List (List ℕ)) (w : Disk) → NoneShort disk disk_laws fd parts w
unfolding NoneShort disk_laws
disk_writes_all fd [] w = tt
disk_writes_all fd (part ∷ parts) w = (refl, disk_writes_all fd parts (disk.write_file fd part w))

all_written :
    (i : ℕ) (d : AllSystemsHousekeeping) (w : Disk) → AllWritten little sizes disk disk_laws i d w
unfolding AllWritten
all_written i d w fd w₁ opened = disk_writes_all fd _ _

abbrev empty_disk : Disk
empty_disk = record { bytes = λ i. 0; size = 0; place = 0; failed = false }

-- Data in which only the start-up telemetry differs.
abbrev stack_struct : AllSystemsHousekeeping
stack_struct = record collected { unix_timestamp = 7; adcs_hk = 9 ∷ []; eps_startup_hk = 8 ∷ [] }

collected-Fits : Fits sizes collected
collected-Fits = record {
  final_fits = omega arith;
  time_fits = omega arith;
  position_fits = omega arith;
  adcs_fits = refl;
  athena_fits = refl;
  eps_fits = refl;
  uhf_fits = refl;
  s_band_fits = refl;
  hyperion_fits = refl;
  charon_fits = refl;
  dfgm_fits = refl;
}

stack-Fits : Fits sizes stack_struct
stack-Fits = record {
  final_fits = omega arith;
  time_fits = omega arith;
  position_fits = omega arith;
  adcs_fits = refl;
  athena_fits = refl;
  eps_fits = refl;
  uhf_fits = refl;
  s_band_fits = refl;
  hyperion_fits = refl;
  charon_fits = refl;
  dfgm_fits = refl;
}

write_hk-read_hk_example :
    let w = (write_hk_to_file little sizes disk 2 collected empty_disk).1 in
    (read_hk_from_file little sizes disk 2 stack_struct w).1
    ≡ record collected { eps_startup_hk = 8 ∷ [] }
unfolding write_hk_to_file write_all read_hk_from_file read_all read_timeorder exists put
    get_size_of_housekeeping
write_hk-read_hk_example =
    write_hk-read_hk little sizes disk disk_laws 2 collected stack_struct empty_disk collected-Fits
      stack-Fits (all_written 2 collected empty_disk) refl refl

write_hk-apart_example :
    let w = (write_hk_to_file little sizes disk 2 collected empty_disk).1 in
    w.bytes ((3 - 1) * get_size_of_housekeeping sizes + 4) ≡ 0
unfolding write_hk_to_file write_all get_size_of_housekeeping put disk_laws
write_hk-apart_example =
    write_hk-apart little sizes disk disk_laws 2 3 4 collected empty_disk collected-Fits
      (omega arith) (omega arith) (omega arith) (inl (omega arith)) (omega arith)
      (all_written 2 collected empty_disk) refl
