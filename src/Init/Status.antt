-- ===== src/Init/Status.antt =====
-- `writeStatus`, cmd/ossein-kernel/init/main.go.
use ossein_kernel.Base.{Bytes, [], codes, ◌++◌, ◌∷◌}
use ossein_kernel.Init.{
  Answer, Call, History, M, Result, attempt, close, create, done, err, ignore, ok, open_file, pure,
  request, sync, write, ◌>>=◌, ◌>>◌,
}
use ossein_kernel.Init.Mounts.{kernel_share}
use ossein_kernel.Numbers.{itoa, ℤ}

abbrev pub status_path : Bytes
status_path = codes "/kernel/status"

abbrev pub after_error : Call → Result (Unit {0}) → History → Result (Unit {0}) × History
after_error c (ok u) h = (ok u, h)
after_error c (err e) h = (err e, c ∷ h)

-- A call made when `m` fails.
abbrev pub on_error : M (Unit {0}) → Call → M (Unit {0})
on_error m c w h = after_error c (m w h).0 (m w h).1

-- The share's directory is flushed if it opens.
abbrev pub sync_opened : Answer → M (Unit {0})
sync_opened done = ignore (sync kernel_share) >> ignore (close kernel_share)
sync_opened _ = pure tt

abbrev pub status_text : ℤ → Bytes
status_text code = itoa code ++ (b'\n' ∷ [])

unfoldable pub write_status : ℤ → M (Unit {0})
write_status code =
    attempt (create status_path)
    >> on_error (attempt (write status_path (status_text code))) (close status_path)
    >> on_error (attempt (sync status_path)) (close status_path)
    >> attempt (close status_path)
    >> (request (open_file kernel_share) >>= sync_opened)
