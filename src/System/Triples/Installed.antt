-- ===== src/System/Triples/Installed.antt =====
-- Files that hold something good, and are moved into place.
use ossein_kernel.Base.{Bytes, Option, none, some, sym, ◌∙◌, ◌≡◌, ◌≢◌}
use ossein_kernel.System.{Node, update}
use ossein_kernel.System.Frame.{update-other, update-same}
use ossein_kernel.System.Triples.{Files, Holds}
use ossein_kernel.System.Triples.Calls.{moved_files}

-- A file with a text that is `Good`.
pub record Installed (Good : Bytes → Type 0) (o : Option Node) : Type 0 where
  pub text : Bytes
  pub good : Good text
  pub holds : Holds text o

pub moved-Installed :
    {Good : Bytes → Type 0} (from to : Bytes) (file : Node) (fs : Files)
    → from ≢ to
    → fs from ≡ some file
    → Installed Good (fs from)
    → Installed Good (moved_files from to file fs to)
moved-Installed from to file fs ne e i = record {
  text = i.text;
  good = i.good;
  holds = record {
    mode = i.holds.mode;
    is_file =
        update-other (update fs to (some file)) from to none ne
        ∙ update-same fs to (some file)
        ∙ sym e
        ∙ i.holds.is_file;
  };
}
