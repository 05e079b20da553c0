-- ===== src/Line.antt =====
-- drivers/termios.c: the virtual terminals, the input buffer of each, and the switch between them.
pub mod Typing
pub mod Keys
pub mod Copying
pub mod Rest
pub mod Reading
pub mod Background
pub mod Switching
mod Tests
use linux.Base.{
  ℕ, zero, suc, ◌+◌, ◌-◌, ◌*◌, ◌^◌, ◌%◌, Bool, true, false, not, ◌&&◌, List, [], ◌∷◌, Option, none,
  some, ◌==◌, if◌then◌else◌, get_or, set, replicate,
}
use linux.Memory.{Mem, ◌⊕◌, write, memcpy}
use linux.CString.{slt}
use linux.Terminal.{
  TermData, Display, term_width, term_height, in_buf_size, video_mem, rounds, key_backspace,
  key_delete, key_enter, clear_input, terminal_clear, terminal_refresh, terminal_handle_key,
}

-- `term_data_array`, the index of `active_term` in it, the memory, and the `outb` calls.
pub record Terminals : Type 0 where
  pub term_data_array : List TermData
  pub active_term : ℕ
  pub mem : Mem
  pub ports : List (ℕ × ℕ)

abbrev pub nr_term : ℕ
nr_term = 4

-- A struct whose bytes are all 0.
abbrev pub no_data : TermData
no_data = record {
  screen_buf = 0;
  cur_x = 0;
  cur_y = 0;
  in_buf = replicate in_buf_size 0;
  in_dat_index = 0;
  in_dat_end = 0;
  in_dat_nr_ret = 0;
  is_active = 0;
  usr_count = 0;
}

abbrev pub term : Terminals → ℕ → TermData
term s n = get_or s.term_data_array n no_data

abbrev pub set_term : Terminals → ℕ → TermData → Terminals
set_term s n t = record s { term_data_array = set s.term_data_array n t }

-- A call of a function of the display side on `&term_data_array[n]`.
abbrev pub display : Terminals → ℕ → Display
display s n = record {
  term_data = term s n;
  current = s.active_term == n;
  mem = s.mem;
  ports = s.ports;
}

abbrev pub put_display : Terminals → ℕ → Display → Terminals
put_display s n d = record {
  term_data_array = set s.term_data_array n d.term_data;
  active_term = s.active_term;
  mem = d.mem;
  ports = d.ports;
}

-- `screen_buffers` is the address of the first back buffer, which the linker chooses. The `memset`
-- reaches three array sizes past `term_data_array`, into memory that is not modelled.
unfoldable pub terminal_init : ℕ → Mem → List (ℕ × ℕ) → Terminals
terminal_init screen_buffers m ports = record {
  term_data_array =
      record no_data { screen_buf = screen_buffers }
      ∷ record no_data { screen_buf = screen_buffers + 4000 }
      ∷ record no_data { screen_buf = screen_buffers + 8000 }
      ∷ record no_data { screen_buf = screen_buffers + 12000 }
      ∷ [];
  active_term = 0;
  mem = m;
  ports = ports;
}

unfoldable pub is_active_term : Terminals → ℕ → Bool
is_active_term s n = n == s.active_term

unfoldable pub term_data_ptr : Terminals → ℕ → ℕ
term_data_ptr s n = (term s n).screen_buf

-- `in_buf[i] = in_buf[i + 1]` for `r` values of `i` from `i` on.
pub shift_left : ℕ → ℕ → List ℕ → List ℕ
shift_left zero i b = b
shift_left (suc r) i b = shift_left r (i ⊕ 1) (set b i (get_or b (i ⊕ 1) 0))

-- `in_buf[i] = in_buf[i - 1]`, likewise.
pub shift_right : ℕ → ℕ → List ℕ → List ℕ
shift_right zero i b = b
shift_right (suc r) i b = shift_right r (i ⊕ 1) (set b i (get_or b (i ⊕ (2 ^ 32 - 1)) 0))

-- The switch of `input_process_key`: the struct it leaves, and `is_modified`.
unfoldable pub edit : TermData → ℕ → TermData × Bool
edit t key =
    if key == key_backspace
    then (if t.in_dat_index == 0
        then (t, false)
        else (let index = t.in_dat_index ⊕ (2 ^ 32 - 1) in
            let end = t.in_dat_end ⊕ (2 ^ 32 - 1) in
            (
              record t {
                in_buf = shift_left (rounds index end) index t.in_buf;
                in_dat_index = index;
                in_dat_end = end;
              },
              true,
            )))
    else (if key == key_delete
        then (if slt t.in_dat_index t.in_dat_end
            then (let i = t.in_dat_index ⊕ (2 ^ 32 - 1) in
                (
                  record t {
                    in_buf = shift_left (rounds i t.in_dat_end) i t.in_buf;
                    in_dat_end = t.in_dat_end ⊕ (2 ^ 32 - 1);
                  },
                  true,
                ))
            else (t, false))
        else (if not (key == 0) && slt t.in_dat_end in_buf_size
            then (let end = t.in_dat_end ⊕ 1 in
                let index = t.in_dat_index ⊕ 1 in
                (
                  record t {
                    in_buf =
                        set (shift_right (rounds index end) index t.in_buf) (index ⊕ (2 ^ 32 - 1))
                          key;
                    in_dat_index = index;
                    in_dat_end = end;
                    in_dat_nr_ret =
                        if key == key_enter then t.in_dat_nr_ret ⊕ 1 else t.in_dat_nr_ret;
                  },
                  true,
                ))
            else (t, false)))

unfoldable pub input_process_key : Terminals → ℕ → ℕ → ℕ → ℕ → Terminals
input_process_key s key scancode control alt =
    let a = s.active_term in
    let t = term s a in
    if t.is_active == 0
    then s
    else (let r = edit t key in
        let s' = set_term s a r.0 in
        put_display s' a
          (terminal_handle_key (display s' a) (if r.1 then key else 0) scancode control alt))

-- The loop of `terminal_write` on `term_data_array[n]`, the terminal of the running process.
pub write_chars : ℕ → Terminals → ℕ → ℕ → Terminals
write_chars zero s n buf = s
write_chars (suc r) s n buf =
    write_chars r (put_display s n (terminal_handle_key (display s n) (s.mem buf) 0xff 0 0)) n
      (buf ⊕ 1)

-- No key is refused, so all are written.
unfoldable pub terminal_write : Terminals → ℕ → ℕ → ℕ → Terminals × ℕ
terminal_write s n buf len = (write_chars (rounds 0 len) s n buf, rounds 0 len)

-- The copy loop of `terminal_read`: the memory, the characters copied, and `cr_read`. `buf` is
-- not inside `term_data_array`.
pub copy_line : ℕ → Mem → TermData → ℕ → ℕ → ℕ → Mem × (ℕ × ℕ)
copy_line zero m t buf len i = (m, (i, 0))
copy_line (suc r) m t buf len i =
    let c = get_or t.in_buf i 0 in
    let m' = write m (buf ⊕ i) c in
    let rest = copy_line r m' t buf len (i + 1) in
    if slt i t.in_dat_end && slt i len
    then (if c == b'\n' then (m', (i + 1, 1)) else rest)
    else (m, (i, 0))

-- `active_term->in_buf[j] = context_term->in_buf[i + j]` for `r` values of `j` from `j` on.
pub move_rest : ℕ → Terminals → ℕ → ℕ → ℕ → Terminals
move_rest zero s n i j = s
move_rest (suc r) s n i j =
    let a = s.active_term in
    let c = get_or (term s n).in_buf (i + j) 0 in
    move_rest r (set_term s a (record (term s a) { in_buf = set (term s a).in_buf j c })) n i
      (j + 1)

-- None while it waits for a newline. The loop stops at the end of the data at the latest.
unfoldable pub terminal_read : Terminals → ℕ → ℕ → ℕ → Option (Terminals × ℕ)
terminal_read s n buf len =
    if (term s n).in_dat_nr_ret == 0
    then none
    else (let copied = copy_line (term s n).in_dat_end s.mem (term s n) buf len 0 in
        let i = copied.1.0 in
        let j = rounds i (term s n).in_dat_end in
        let s' = move_rest j (record s { mem = copied.0 }) n i 0 in
        let t = term s' n in
        some (
          set_term s' n (record t {
            in_dat_end = j;
            in_dat_index = t.in_dat_index ⊕ (2 ^ 32 - i);
            in_dat_nr_ret = t.in_dat_nr_ret ⊕ (2 ^ 32 - copied.1.1);
          }),
          i,
        ))

unfoldable pub terminal_open : Terminals → ℕ → Terminals
terminal_open s n =
    if not ((term s n).usr_count == 0)
    then s
    else (let d = terminal_clear (display s n) in
        put_display s n (record d {
          term_data = record (d.term_data) {
            in_buf = clear_input in_buf_size 0 d.in_buf;
            in_dat_index = 0;
            in_dat_end = 0;
            in_dat_nr_ret = 0;
            is_active = 1;
          };
        }))

unfoldable pub terminal_switch : Terminals → ℕ → Terminals
terminal_switch s n =
    let a = s.active_term in
    let size = term_height * term_width * 2 in
    if n == a
    then s
    else (let m = memcpy s.mem (term s a).screen_buf video_mem size in
        let m' = memcpy m video_mem (term s n).screen_buf size in
        let s1 = set_term s a (record (term s a) { is_active = 0 }) in
        let s2 = set_term s1 n (record (term s1 n) { is_active = 1 }) in
        let s3 = record s2 { active_term = n; mem = m' } in
        put_display s3 n (terminal_refresh (display s3 n)))

-- On the struct that the uninitialised `term_data` leads to. `usr_count` is a `char`.
unfoldable pub terminal_close : TermData → TermData
terminal_close t =
    let t' = record t { usr_count = (t.usr_count + 0xff) % 0x100 } in
    if t'.usr_count == 0 then record t' { is_active = 0 } else t'
