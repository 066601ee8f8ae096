-- ===== src/Examples/Fetch.antt =====
-- A request for records, with a file system that reads 7 everywhere and a link that keeps what it sends.
use ex2_services.Base.{
  ℕ, ◌≡◌, refl, arith, zero, suc, true, false, some, List, [], ◌∷◌, ◌++◌, replicate, length, drop,
}
use ex2_services.Csp.Bytes.{big}
use ex2_services.Csp.Packet.{Packet}
use ex2_services.Housekeeping.Timestamps.{success, of_size}
use ex2_services.Housekeeping.State.{RedFs, Link, AllSystemsHousekeeping, Hk}
use ex2_services.Housekeeping.Config.{exists}
use ex2_services.Housekeeping.Storage.{
  load_historic_hk_data, read_hk_from_file, read_all, read_timeorder,
}
use ex2_services.Housekeeping.Fetch.Sent.{IsShaped, Serves}
use ex2_services.Examples.Toys.{network, packet_of, sizes, converters, times}

abbrev sevens : RedFs (List Packet)
sevens = record {
  open_file = λ f flags w. (some 3, w);
  write_file = λ fd bs w. w;
  write_null = λ fd w. w;
  read_file = λ fd n w. (replicate n 7, w);
  read_null = λ fd w. w;
  seek_set = λ fd n w. w;
  seek_cur = λ fd n w. w;
  close_file = λ fd w. w;
  unlink = λ f w. w;
  clear_errno = λ w. w;
  no_error = λ w. true;
  is_eexist = λ w. true;
}

abbrev recording : Link (List Packet)
recording = record {
  send = λ p w. (true, w ++ p ∷ []);
  buffer_free = λ b w. w;
  buffer_get = λ n w. (some (packet_of []), w);
}

abbrev record_of_sevens : AllSystemsHousekeeping
record_of_sevens = record {
  final = 7;
  unix_timestamp = 117901063;
  data_position = 1799;
  adcs_hk = 7 ∷ [];
  athena_hk = 7 ∷ [];
  eps_hk = 7 ∷ [];
  eps_startup_hk = 7 ∷ [];
  uhf_hk = 7 ∷ [];
  s_band_hk = 7 ∷ [];
  hyperion_hk = 7 ∷ [];
  charon_hk = 7 ∷ [];
  dfgm_hk = 7 ∷ [];
}

drop-all : (bs : List ℕ) (n : ℕ) → length bs ≡ n → drop n bs ≡ []
drop-all [] zero e = refl
drop-all [] (suc n) e = refl
drop-all (b ∷ bs) zero e = absurd (omega (arith, e))
drop-all (b ∷ bs) (suc n) e = drop-all bs n (omega (arith, e))

reads_sevens :
    (id : ℕ) (d : AllSystemsHousekeeping) (w : List Packet)
    → IsShaped sizes d
    → load_historic_hk_data big sizes sevens id d w
      ≡ (success, record record_of_sevens { eps_startup_hk = d.eps_startup_hk }, w)
unfolding load_historic_hk_data read_hk_from_file read_all read_timeorder exists
reads_sevens id d w shape =
    rw
      (
        drop-all d.adcs_hk 1 shape.adcs_size,
        drop-all d.athena_hk 1 shape.athena_size,
        drop-all d.eps_hk 1 shape.eps_size,
        drop-all d.uhf_hk 1 shape.uhf_size,
        drop-all d.s_band_hk 1 shape.s_band_size,
        drop-all d.hyperion_hk 1 shape.hyperion_size,
        drop-all d.charon_hk 1 shape.charon_size,
        drop-all d.dfgm_hk 1 shape.dfgm_size,
      )
      refl

sevens-IsShaped : IsShaped sizes record_of_sevens
sevens-IsShaped = record {
  adcs_size = refl;
  athena_size = refl;
  eps_size = refl;
  uhf_size = refl;
  s_band_size = refl;
  hyperion_size = refl;
  charon_size = refl;
  dfgm_size = refl;
}

serving : Serves network converters sizes sevens recording 3
serving = record {
  log = λ w. w;
  stored = λ id. record_of_sevens;
  shaped = λ id. sevens-IsShaped;
  athena_keeps = λ bs. refl;
  eps_keeps = λ bs. refl;
  uhf_keeps = λ bs. refl;
  s_band_keeps = λ bs. refl;
  loads = λ id d w shape pos high. (w, reads_sevens id d w shape, refl);
  gets = λ n w. (packet_of [], w, refl, refl);
  sends = λ p w. (w ++ p ∷ [], refl, refl);
}

abbrev ring : Hk (List Packet)
ring = record {
  max_files = 3;
  current_file = 3;
  config_loaded = true;
  temp_time = 0;
  array = of_size 3 times;
  locked = false;
  world = [];
}

-- The file behind which the request reads.
abbrev asked : ℕ
asked = 2
