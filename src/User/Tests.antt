-- ===== src/User/Tests.antt =====
-- The library and the programs of syscalls on concrete strings.
use linux.Base.{◌≡◌, refl, arith, some, if◌then◌else◌, ◌==◌}
use linux.Memory.{Mem}
use linux.CString.{IsString, strncpy}
use linux.User.{System, ◌>>◌, pure, minus_one, ece391_strcmp}
use linux.User.Emulate.{Linux, Emulated, ece391_read}
use linux.User.Emulate.Names.{read_listing}
use linux.User.Pingpong.{walls, draw, show}
use linux.User.Pingpong.Lines.{Shows, walls_lem, show_line}
use linux.User.Strings.{Compared, strcmp_lem}

-- "ab" at 16 and "ac" at 32.
abbrev texts : Mem
texts a =
    if a == 16
    then b'a'
    else (if a == 17 then b'b' else (if a == 32 then b'a' else (if a == 33 then b'c' else 0)))

ab-IsString : IsString texts 16 2
ab-IsString = record { end = refl; before = λ k h. ground arith }

ac-IsString : IsString texts 32 2
ac-IsString = record { end = refl; before = λ k h. ground arith }

strcmp_lem_example : Compared texts 16 32 2 2 (ece391_strcmp 3 texts 16 32)
strcmp_lem_example = strcmp_lem 3 texts 16 32 2 2 ab-IsString ac-IsString (omega arith)

-- A system that is its memory, whose calls do nothing.
abbrev quiet : System Mem
quiet = record {
  memory = λ m. m;
  set_memory = λ m m'. m';
  ece391_read = λ fd buf nbytes. pure 0;
  ece391_write = λ fd buf nbytes. pure nbytes;
  ece391_open = λ filename. pure 2;
  ece391_close = λ fd. pure 0;
  ece391_getargs = λ buf nbytes. pure 0;
  ece391_vidmap = λ screen_start. pure 0;
  ece391_execute = λ command. pure 0;
  ece391_set_handler = λ signum handler. pure 0;
  literal = λ text. 0;
  fuel = 100;
}

abbrev court : Mem
court = walls (λ a. 0) 0x1000

show_line_example :
    Shows (draw court 0x1000 40 b'A') 0x1000 40 b'A'
    × (show quiet 0x1000 0x2000 2 b'A' 40 court
        ≡ (quiet.ece391_write 1 0x1000 80 >> quiet.ece391_read 2 0x2000 4)
            (draw court 0x1000 40 b'A'))
show_line_example =
    show_line quiet court 0x1000 0x2000 2 b'A' 40 (λ t m. refl) (omega arith) (omega arith)
      (omega arith) (omega arith) (λ z. absurd (omega arith))
      (walls_lem (λ a. 0) 0x1000 (omega arith)).0

-- A Linux that is its memory, with one entry, whose name is the text at 16.
abbrev host : Linux Mem
host = record {
  host_memory = λ m. m;
  host_set_memory = λ m m'. m';
  host_read = λ fd buf nbytes. pure 0;
  host_write = λ fd buf nbytes. pure nbytes;
  host_open = λ filename. pure 3;
  host_close = λ fd. pure 0;
  open_null = pure 4;
  open_mem = pure 5;
  map_low_memory = λ fd. pure 0x100000;
  opendir = pure 0x5000;
  readdir = λ dir. pure 16;
  closedir = λ dir. pure 0;
  run = λ buf args. pure 0;
  host_literal = λ text. 0;
  host_fuel = 100;
}

abbrev listing : Emulated Mem
listing = record {
  host = texts;
  start_esp = 0x7000;
  dir_fd = 4;
  dir = 0x5000;
  mem_fd = minus_one;
  execute_buf = 0x8000;
  execute_args = 0x9000;
}

read_listing_example :
    ece391_read host 4 0x3000 33 listing
    ≡ some (record listing { host = strncpy texts 0x3000 16 32 }, 32)
read_listing_example =
    read_listing host listing texts 4 0x3000 33 16 (λ z. absurd (omega arith)) refl refl
      (λ z. absurd (omega arith)) (omega arith) (omega arith)
