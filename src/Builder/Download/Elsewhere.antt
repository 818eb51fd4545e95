-- ===== src/Builder/Download/Elsewhere.antt =====
-- A download leaves every file but its partial one as it was.
use ossein_kernel.Base.{
  Bool, Bytes, List, [], ap, arith, codes, false, if◌then◌else◌, length, length-append, ltb, suc,
  sym, true, zero, ℕ, ◌&&◌, ◌++◌, ◌+◌, ◌∷◌, ◌≡◌, ◌≢◌,
}
use ossein_kernel.System.{
  Error, M, download_error, download_http, download_stall, interrupted, pure, read_error, throw,
}
use ossein_kernel.System.Frame.{
  Frame, Frame-catch, Frame-pure, Frame-throw, append_file-Frame, close_file-Frame, create-Frame,
  ◌then◌,
}
use ossein_kernel.Builder.Download.{
  Ending, Network, Reply, attempts_from, bad_status, body, broken, close_anyway, closed_after,
  copied, copy_body, download_attempt, download_attempts, download_with_retries, eof, no_reply,
  received, stalled, write_chunk,
}

lengths_differ : (m n : ℕ) → m + 5 ≡ n → n ≢ m
lengths_differ m n h e = omega arith

longer-ne : (s t : Bytes) → length s + 5 ≡ length t → t ≢ s
longer-ne s t h e = absurd (lengths_differ (length s) (length t) h (ap length e))

pub partial_path-ne : (dest : Bytes) → dest ++ codes ".part" ≢ dest
unfolding codes
partial_path-ne dest e =
    longer-ne dest (dest ++ codes ".part") (sym (length-append dest (codes ".part"))) e

Frame-copied : (p : Bytes) (e : Ending) → Frame p (copied e)
Frame-copied p eof = Frame-pure p tt
Frame-copied p broken = Frame-throw p read_error
Frame-copied p stalled = Frame-throw p download_stall

Frame-write_chunk : (p tmp s : Bytes) → tmp ≢ p → Frame p (write_chunk tmp s)
Frame-write_chunk p tmp [] h = Frame-pure p tt
Frame-write_chunk p tmp (c ∷ s) h = append_file-Frame tmp (c ∷ s) p h

copy_body-Frame :
    (p tmp : Bytes) (ss : List Bytes) (e : Ending) → tmp ≢ p → Frame p (copy_body tmp ss e)
unfolding copy_body
copy_body-Frame p tmp [] e h = Frame-copied p e
copy_body-Frame p tmp (s ∷ ss) e h = Frame-write_chunk p tmp s h then copy_body-Frame p tmp ss e h

pub Frame-closed_after :
    {m : M (Unit {0})} (p tmp : Bytes) → Frame p m → Frame p (closed_after tmp m)
Frame-closed_after p tmp k =
    Frame-catch (close_anyway tmp) k (λ e.
      Frame-catch (λ _. pure tt) (close_file-Frame tmp p) (λ _. Frame-pure p tt)
      then Frame-throw p e)
    then close_file-Frame tmp p

received-Frame : (p tmp : Bytes) (r : Reply) → tmp ≢ p → Frame p (received tmp r)
received-Frame p tmp no_reply h = Frame-throw p download_error
received-Frame p tmp bad_status h = Frame-throw p download_http
received-Frame p tmp (body ss e) h =
    create-Frame tmp p h then Frame-closed_after p tmp (copy_body-Frame p tmp ss e h)

pub Frame-if :
    {p : Bytes} {A : Type 0} {m k : M A} (b : Bool)
    → Frame p m
    → Frame p k
    → Frame p (if b then m else k)
Frame-if true f g = f
Frame-if false f g = g

pub attempts_from-Frame :
    (net : Network) (p tmp : Bytes) (left n : ℕ) (e : Error)
    → tmp ≢ p
    → Frame p (attempts_from net tmp left n e)
unfolding attempts_from download_attempt
attempts_from-Frame net p tmp zero n e h = Frame-throw p e
attempts_from-Frame net p tmp (suc left) n e h =
    Frame-if (ltb 1 n && net.interrupted_before n) (Frame-throw p interrupted) (
      Frame-catch
        (λ f.
          if net.interrupted_in n then throw interrupted else attempts_from net tmp left (suc n) f)
        (received-Frame p tmp (net.reply n) h)
        (λ f.
          Frame-if (net.interrupted_in n) (Frame-throw p interrupted)
            (attempts_from-Frame net p tmp left (suc n) f h)))

-- `downloadWithRetries` changes no file but its temporary one, whatever fails.
pub download_with_retries-Frame :
    (net : Network) (p tmp : Bytes) → tmp ≢ p → Frame p (download_with_retries net tmp)
unfolding download_with_retries
download_with_retries-Frame net p tmp h =
    attempts_from-Frame net p tmp download_attempts 1 download_error h
