-- ===== src/Pipeline/Tests.antt =====
-- A worker, and two of them, with a file with one function each.
use mathlib.Core.List.Perm
use tsag.Base.{refl, arith, ◌≡◌, true, List, [], ◌∷◌, some, Bytes, codes, Perm}
use tsag.LineVec.{LineVec}
use tsag.LineVec.Sort.{IsSorted}
use tsag.LineVec.Ascending.{IsAscending, has}
use tsag.Merge.{Merged}
use tsag.Parse.File.{Outside}
use tsag.Worker.{Outcome, worker}
use tsag.Pipeline.Files.{lines_of}
use tsag.Pipeline.Shares.{AreTame, files, tag_file-of_files}
use tsag.Pipeline.Once.{worker-Ascending}
use tsag.Pipeline.{Share, tag_file}
use tsag.Pipeline.Sample.{outside, outside-IsTame, setup}
use tsag.Pipeline.Laws.{is_set_up}

abbrev both : List (Bytes × Outside)
both = (codes "y.c", outside) ∷ (codes "x.c", outside) ∷ []

setup-is_set_up : is_set_up setup ≡ true
unfolding is_set_up
setup-is_set_up = refl

worker-Ascending_example :
    (o : Outcome) × (r : LineVec) × (worker setup both ≡ some o)
    × (o.put ≡ some r)
    × IsAscending r.items
    × ((l : Bytes) → has l r.items ≡ has l (lines_of both))
worker-Ascending_example =
    worker-Ascending setup both setup-is_set_up (outside-IsTame, (outside-IsTame, tt)) (omega arith)

abbrev two : List Share
two = (setup, (codes "x.c", outside) ∷ []) ∷ (setup, (codes "y.c", outside) ∷ []) ∷ []

two-AreTame : AreTame two
unfolding is_set_up
two-AreTame =
    ((refl, (outside-IsTame, tt), omega arith), ((refl, (outside-IsTame, tt), omega arith), tt))

two-files : Perm (files two) both
unfolding files
two-files = Perm.swap (codes "y.c", outside) (codes "x.c", outside) []

tag_file-of_files_example :
    (r : Merged) × (tag_file two ≡ some r)
    × IsSorted r.written
    × ((l : Bytes) → has l r.written ≡ has l (lines_of both))
tag_file-of_files_example = tag_file-of_files two both two-AreTame two-files
