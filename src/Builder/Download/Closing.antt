-- ===== src/Builder/Download/Closing.antt =====
-- What holds of a file that is written and then closed in any case.
use ossein_kernel.Base.{Bytes}
use ossein_kernel.System.{M, pure}
use ossein_kernel.System.Triples.{
  Files, Triple, Triple-catch, Triple-pure, Triple-throw, close_file-Triple, ◌and◌,
}
use ossein_kernel.Builder.Download.{close_anyway, closed_after}

pub closed_after-Triple :
    {P Q E : Files → Type 0} {m : M (Unit {0})} (path : Bytes)
    → ((fs : Files) → Q fs → E fs)
    → Triple P m (λ _. Q) E
    → Triple P (closed_after path m) (λ _. Q) E
closed_after-Triple {Q = Q} {E = E} path half t =
    Triple-catch (close_anyway path) t (λ e.
      Triple-catch (λ _. pure tt) (close_file-Triple {P = E} {E = E} (λ fs p. p) path)
        (λ _. Triple-pure {Q = λ _. E} tt)
      and Triple-throw {Q = λ _. Q} e)
    and close_file-Triple half path
