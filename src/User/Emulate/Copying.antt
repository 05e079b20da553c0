-- ===== src/User/Emulate/Copying.antt =====
-- ece391cat.c of syscalls/ on the system calls of ece391emulate.c, which run on Linux.
use linux.Base.{ℕ, ◌+◌, ◌*◌, ◌≤◌, ◌≡◌, ◌≢◌, ap, none, some, [], ◌++◌, length, ==_true}
use linux.User.{Program, minus_one}
use linux.User.Programs.{cat}
use linux.User.Programs.Cat.{Feeds, cat_lem}
use linux.User.Emulate.{Linux, Emulated, host_call, ece391_read, ece391_write}
use linux.User.Emulate.Execute.{emulated_system}

-- What `read` and `write` of Linux do, for a file behind `fd` and the output on descriptor 1.
abbrev pub HostFeeds : {S : Type 0} → Linux S → ℕ → ℕ → Type 1
HostFeeds linux_host fd buf =
    Feeds linux_host.host_memory (linux_host.host_read fd buf 1024) (linux_host.host_write 1 buf)
      buf

host_call_lem :
    {S : Type 0} (linux_host : Linux S) (call : Program S ℕ) (e : Emulated S) (s : S) (n : ℕ)
    → call e.host ≡ some (s, n)
    → host_call linux_host call e ≡ some (record e { host = s }, n)
host_call_lem linux_host call e s n given =
    ap (λ r. elim r [ none ↦ none | some (s1, a) ↦ some (record e { host = s1 }, a) ]) given

-- While no directory is read, the calls are those of Linux.
emulated_feeds :
    {S : Type 0} (linux_host : Linux S) (fd buf : ℕ)
    → HostFeeds linux_host fd buf
    → Feeds
        (emulated_system linux_host).memory
        (ece391_read linux_host fd buf 1024)
        (ece391_write linux_host 1 buf)
        buf
unfolding ece391_read ece391_write
emulated_feeds linux_host fd buf w = record {
  valid = λ e. w.valid e.host × (e.dir ≡ 0);
  rest = λ e. w.rest e.host;
  output = λ e. w.output e.host;
  read_lem = λ e (ok, plain).
      let (s, read, ok', rest', same, chunk) = w.read_lem e.host ok in
      (
        record e { host = s },
        rw (==_true e.dir 0 plain)
            (host_call_lem linux_host (linux_host.host_read fd buf 1024) e s _ read),
        (ok', plain),
        rest',
        same,
        chunk,
      );
  write_lem = λ e n (ok, plain) some_bytes few.
      let (s, written, write, done, ok', same, output') = w.write_lem e.host n ok some_bytes few in
      (
        record e { host = s },
        written,
        rw (==_true e.dir 0 plain)
            (host_call_lem linux_host (linux_host.host_write 1 buf n) e s written write),
        done,
        (ok', plain),
        same,
        output',
      );
}

-- On the emulation of the system calls over a Linux whose `read` puts the next bytes of a file to the
-- buffer and whose `write` appends to the output, in the states that are valid: when `getargs` and
-- `open` succeed, no directory is read, the state then is valid, and there is fuel for one read more
-- than the file has pieces of 1024 bytes, `cat` ends with 0, the file is read to its end, and the
-- output has grown by exactly what was unread.
pub cat-emulated_system :
    {S : Type 0} (linux_host : Linux S) (f fd buf : ℕ) (e e1 e2 : Emulated S)
    (w : HostFeeds linux_host fd buf)
    → (emulated_system linux_host).ece391_getargs buf 1024 e ≡ some (e1, 0)
    → (emulated_system linux_host).ece391_open buf e1 ≡ some (e2, fd)
    → fd ≢ minus_one
    → e2.dir ≡ 0
    → w.valid e2.host
    → length (w.rest e2.host) + 1024 ≤ 1024 * f
    → (e' : Emulated S) × (cat (emulated_system linux_host) f buf e ≡ some (e', 0))
      × (w.rest e'.host ≡ [])
      × (w.output e'.host ≡ w.output e2.host ++ w.rest e2.host)
unfolding emulated_feeds
cat-emulated_system linux_host f fd buf e e1 e2 w args opened found plain ok enough =
    cat_lem (emulated_system linux_host) f fd buf e e1 e2 (emulated_feeds linux_host fd buf w) args
      opened found (ok, plain) enough
