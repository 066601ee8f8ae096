-- ===== src/Cli/Files.antt =====
-- The file commands of Services/source/cli/fs_utils.c over Reliance Edge. `pdTRUE` is true: the
-- command is to be called again.
use ex2_services.Base.{
  ℕ, Bool, true, false, not, Option, none, some, List, [], ◌∷◌, ◌==◌, if◌then◌else◌,
}

-- The names of the errors.
pub data ErrorName : Type 0 where
  red_eperm red_enoent red_eio red_ebadf red_ebusy red_eexist red_exdev : ErrorName
  red_enotdir red_eisdir red_einval red_enfile red_emfile red_efbig red_enospc : ErrorName
  red_erofs red_emlink red_erange red_enametoolong red_enosys red_enotempty : ErrorName
  red_enodata red_eusers : ErrorName
  unknown_error : ErrorName

-- `REDSTAT`, in the fields that are printed.
pub record Stat : Type 0 where
  pub st_dev : ℕ
  pub st_ino : ℕ
  pub st_mode : ℕ
  pub st_nlink : ℕ
  pub st_size : ℕ
  pub st_blocks : ℕ

-- What a command puts into the output buffer.
pub data Output : Type 0 where
  untouched : Output
  empty_line : Output
  line : List ℕ → Output
  error_line : ErrorName → Output
  stat_lines : Stat → Output

-- Reliance Edge. A path is `none` where the command line has no parameter, a Boolean tells that a
-- call gave no negative number, and `none` stands for NULL or a negative descriptor.
pub record Volume (W : Type 0) : Type 0 where
  pub errno : W → ℕ
  pub clear_errno : W → W
  pub getcwd : W → Option (List ℕ) × W
  pub chdir : Option (List ℕ) → W → Bool × W
  pub mkdir : Option (List ℕ) → W → Bool × W
  pub rmdir : Option (List ℕ) → W → Bool × W
  pub unlink : Option (List ℕ) → W → Bool × W
  pub transact : Option (List ℕ) → W → Bool × W
  pub open_new : Option (List ℕ) → W → Option ℕ × W
  pub open_rdonly : Option (List ℕ) → W → Option ℕ × W
  pub close : ℕ → W → W
  pub fstat : ℕ → W → Option Stat × W
  pub opendir : List ℕ → W → Option ℕ × W
  pub readdir : ℕ → W → Option (List ℕ) × W
  pub closedir : ℕ → W → W

unfoldable pub error_name : ℕ → ErrorName
error_name n =
    if n == 1
    then red_eperm
    else if n == 2
    then red_enoent
    else if n == 5
    then red_eio
    else if n == 9
    then red_ebadf
    else if n == 16
    then red_ebusy
    else if n == 17
    then red_eexist
    else if n == 18
    then red_exdev
    else if n == 20
    then red_enotdir
    else if n == 21
    then red_eisdir
    else if n == 22
    then red_einval
    else if n == 23
    then red_enfile
    else if n == 24
    then red_emfile
    else if n == 27
    then red_efbig
    else if n == 28
    then red_enospc
    else if n == 30
    then red_erofs
    else if n == 31
    then red_emlink
    else if n == 34
    then red_erange
    else if n == 36
    then red_enametoolong
    else if n == 38
    then red_enosys
    else if n == 39
    then red_enotempty
    else if n == 61
    then red_enodata
    else if n == 87
    then red_eusers
    else unknown_error

-- The statics of `prvLSCommand`: `firstRun` is true, or it is false and `dir` is open.
pub data Listing : Type 0 where
  at_first : Listing
  reading : ℕ → Listing

-- The statics of `prvSTATCommand`.
pub record Stating : Type 0 where
  pub first_run : Bool
  pub p_stat : Stat

abbrev pub no_stat : Stat
no_stat = record { st_dev = 0; st_ino = 0; st_mode = 0; st_nlink = 0; st_size = 0; st_blocks = 0 }

module _ {W : Type 0} (fs : Volume W) where
  unfoldable pub create_error_output : W → Output × W
  create_error_output w = (error_line (error_name (fs.errno w)), fs.clear_errno w)

  -- A call that only can fail.
  unfoldable pub reported : Bool × W → Output × W
  unfolding create_error_output
  reported (true, w) = (untouched, w)
  reported (false, w) = create_error_output w

  unfoldable pub prv_pwd_command : W → Output × W
  prv_pwd_command w =
      let (cwd, w₁) = fs.getcwd w in
      elim cwd [ none ↦ create_error_output w₁ | some name ↦ (line name, w₁) ]

  unfoldable pub prv_cd_command : Option (List ℕ) → W → Output × W
  prv_cd_command parameter w = reported (fs.chdir parameter w)

  unfoldable pub prv_mkdir_command : Option (List ℕ) → W → Output × W
  prv_mkdir_command parameter w = reported (fs.mkdir parameter w)

  unfoldable pub prv_rmdir_command : Option (List ℕ) → W → Output × W
  prv_rmdir_command parameter w = reported (fs.rmdir parameter w)

  unfoldable pub prv_rm_command : Option (List ℕ) → W → Output × W
  prv_rm_command parameter w = reported (fs.unlink parameter w)

  unfoldable pub prv_transact_command : Option (List ℕ) → W → Output × W
  prv_transact_command parameter w = reported (fs.transact parameter w)

  unfoldable pub prv_mk_command : Option (List ℕ) → W → Output × W
  prv_mk_command parameter w =
      let (opened, w₁) = fs.open_new parameter w in
      elim opened [ none ↦ create_error_output w₁ | some fd ↦ (untouched, fs.close fd w₁) ]

  -- The next entry of an open directory.
  unfoldable pub next_entry : ℕ → W → Bool × Output × Listing × W
  next_entry dir w =
      let (current, w₁) = fs.readdir dir (fs.clear_errno w) in
      elim current [
        | some name ↦ (true, line name, reading dir, w₁)
        | none ↦
            let (text, w₂) =
              if fs.errno w₁ == 0 then (empty_line, w₁) else create_error_output w₁ in
            (false, text, at_first, fs.closedir dir w₂)
      ]

  -- The part of the first call, with what `red_opendir` gives.
  unfoldable pub first_entry : W → Bool × Output × Listing × W
  unfolding next_entry
  first_entry w =
      let (cwd, w₁) = fs.getcwd (fs.clear_errno w) in
      elim cwd [
        | none ↦ let (text, w₂) = create_error_output w₁ in (false, text, at_first, w₂)
        | some name ↦
            let (dir, w₂) = fs.opendir name w₁ in
            elim dir [
              | none ↦ let (text, w₃) = create_error_output w₂ in (false, text, at_first, w₃)
              | some opened ↦ next_entry opened w₂
            ]
      ]

  unfoldable pub prv_ls_command : Listing → W → Bool × Output × Listing × W
  unfolding first_entry next_entry
  prv_ls_command at_first w = first_entry w
  prv_ls_command (reading dir) w = next_entry dir w

  -- The print of what the static struct holds.
  unfoldable pub print_stat : Stat → W → Output × Stating × W
  print_stat p_stat w = (stat_lines p_stat, record { first_run = true; p_stat = no_stat }, w)

  -- The descriptor is never closed.
  unfoldable pub prv_stat_command : Option (List ℕ) → Stating → W → Output × Stating × W
  unfolding print_stat
  prv_stat_command parameter s w =
      if not s.first_run
      then print_stat s.p_stat w
      else (let (opened, w₁) = fs.open_rdonly parameter w in
          elim opened [
            | none ↦ let (text, w₂) = create_error_output w₁ in (text, s, w₂)
            | some fd ↦
                let (stat, w₂) = fs.fstat fd w₁ in
                elim stat [
                  | none ↦ let (text, w₃) = create_error_output w₂ in (text, s, w₃)
                  | some found ↦ print_stat found w₂
                ]
          ])

-- The static `firstRun` of `prvSTATCommand` has no initial value, which makes it false.
abbrev pub stat_static : Stating
stat_static = record { first_run = false; p_stat = no_stat }

-- The commands that are registered, with the number of parameters that they take.
pub data Command : Type 0 where
  echo hello time pwd ls cd mkdir rmdir mk rm stat read transact : Command

unfoldable pub expected_parameters : Command → Option ℕ
expected_parameters echo = none
expected_parameters hello = some 0
expected_parameters time = none
expected_parameters pwd = some 0
expected_parameters ls = some 0
expected_parameters cd = some 1
expected_parameters mkdir = some 1
expected_parameters rmdir = some 1
expected_parameters mk = some 1
expected_parameters rm = none
expected_parameters stat = some 1
expected_parameters read = some 1
expected_parameters transact = some 1

-- In the order of registration.
unfoldable pub register_fs_utils : List Command
register_fs_utils = pwd ∷ ls ∷ cd ∷ mkdir ∷ rmdir ∷ mk ∷ rm ∷ stat ∷ read ∷ transact ∷ []

unfoldable pub register_commands : List Command
unfolding register_fs_utils
register_commands = echo ∷ hello ∷ time ∷ register_fs_utils
