-- ===== src/Examples/Toys.antt =====
-- Small stand-ins for the hardware and the libraries: a big-endian host, a clock, a file system that
-- keeps nothing, and a link that always sends.
use ex2_services.Base.{
  ℕ, zero, suc, ◌≡◌, refl, Bool, true, false, Option, some, List, [], ◌∷◌, ltb, ◌==◌, if◌then◌else◌,
  ◌&&◌, get_or, arith,
}
use ex2_services.Csp.Bytes.{big}
use ex2_services.Csp.Network.{Network, IsBytes}
use ex2_services.Csp.Packet.{Packet}
use ex2_services.TimeManagement.{Rtc}
use ex2_services.Housekeeping.Timestamps.{of_size}
use ex2_services.Housekeeping.State.{RedFs, Link, AllSystemsHousekeeping, Sizes, Hk}
use ex2_services.Housekeeping.Fetch.{Converters}

abbrev pub network : Network big
network = record {
  ntoh32 = λ x. x;
  hton32 = λ x. x;
  ntoh16 = λ x. x;
  hton16 = λ x. x;
  ntoh32_lem = λ a b c d p q r s. refl;
  hton32_lem = λ a b c d p q r s. refl;
  ntoh16_lem = λ a b p q. refl;
  hton16_lem = λ a b p q. refl;
}

abbrev pub packet_of : List ℕ → Packet
packet_of bs = record { buffer = 5; length = 9; bytes = λ i. get_or bs i 0 }

abbrev pub small_bytes : List ℕ → Bool
small_bytes [] = true
small_bytes (b ∷ bs) = ltb b 256 && small_bytes bs

pub packet_of-IsBytes : (bs : List ℕ) → small_bytes bs ≡ true → IsBytes (packet_of bs).bytes
packet_of-IsBytes [] small i = ground arith
packet_of-IsBytes (b ∷ bs) small zero = ground arith
packet_of-IsBytes (b ∷ bs) small (suc i) = packet_of-IsBytes bs (ground arith) i

-- A clock whose state is its time.
abbrev pub clock : Rtc ℕ
clock = record { set_unix = λ t w. (0, t); get_unix = λ w. (0, w) }

-- `opens` is what `red_open` gives.
abbrev pub files : Option ℕ → RedFs ℕ
files opens = record {
  open_file = λ f flags w. (opens, w);
  write_file = λ fd bs w. w;
  write_null = λ fd w. w;
  read_file = λ fd n w. ([], w);
  read_null = λ fd w. w;
  seek_set = λ fd n w. w;
  seek_cur = λ fd n w. w;
  close_file = λ fd w. w;
  unlink = λ f w. w;
  clear_errno = λ w. w;
  no_error = λ w. true;
  is_eexist = λ w. true;
}

abbrev pub link : Link ℕ
link = record {
  send = λ p w. (true, w);
  buffer_free = λ b w. w;
  buffer_get = λ n w. (some (packet_of []), w);
}

abbrev pub sizes : Sizes
sizes = record {
  adcs = 1;
  athena = 1;
  eps = 1;
  eps_startup = 1;
  uhf = 1;
  s_band = 1;
  hyperion = 1;
  charon = 1;
  dfgm = 1;
}

abbrev pub converters : Converters
converters = record {
  athena_convert = λ bs. bs;
  eps_convert = λ bs. bs;
  uhf_convert = λ bs. bs;
  s_band_convert = λ bs. bs;
}

-- Files 1 and 2 are written, 40 seconds apart, file 3 of three is the current one.
abbrev pub times : ℕ → ℕ
times i = if i == 1 then 1000 else if i == 2 then 1040 else 0

abbrev pub hk_state : Hk ℕ
hk_state = record {
  max_files = 3;
  current_file = 3;
  config_loaded = true;
  temp_time = 0;
  array = of_size 3 times;
  locked = false;
  world = 0;
}

abbrev pub collected : AllSystemsHousekeeping
collected = record {
  final = 0;
  unix_timestamp = 1050;
  data_position = 0;
  adcs_hk = 1 ∷ [];
  athena_hk = 1 ∷ [];
  eps_hk = 1 ∷ [];
  eps_startup_hk = 1 ∷ [];
  uhf_hk = 1 ∷ [];
  s_band_hk = 1 ∷ [];
  hyperion_hk = 1 ∷ [];
  charon_hk = 1 ∷ [];
  dfgm_hk = 1 ∷ [];
}
