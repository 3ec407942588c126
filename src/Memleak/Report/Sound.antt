-- ===== src/Memleak/Report/Sound.antt =====
-- memleak/memleak.cpp, the reports as a whole.
use mathlib.Core.List.{append_assoc, append-nil}
use tripping_robot.Prelude.{ℕ, zero, suc, ◌<◌, ◌≡◌, refl, sym, ap, ◌∙◌, arith}
use tripping_robot.Prelude.{
  Bool, true, false, Option, none, some, List, [], ◌∷◌, ◌++◌, if◌then◌else◌, length, Bool-cases,
  inl, inr,
}
use tripping_robot.Memleak.{
  Abi, AllocRecord, Memleak, alloc_list, Message, title, tight_title, newline, exited, unclean, ok,
  load_next, load_record, lock, unlock, ml_log,
}
use tripping_robot.Memleak.Report.{is_tight, report_loop, memleak_report, exit_loop, exit_checker}
use tripping_robot.Memleak.Report.Shown.{
  is_shown, lines, cleaned, all_cleaned, erased, next-Linked, report_loop-Reported,
}
use tripping_robot.Memleak.Sites.Linked.{Linked, NotIn, first_or}
use tripping_robot.Memleak.Sites.Push.{Held, IsList, not_head}
use tripping_robot.Memleak.Alloc.Balance.{count_at, total_at, Agrees}
use tripping_robot.Memleak.Alloc.Sound.{IsSound, SameKeys, IsSorted-SameKeys}

SameKeys-all_cleaned : (flags : ℕ) (xs : List AllocRecord) → SameKeys xs (all_cleaned flags xs)
unfolding all_cleaned cleaned
SameKeys-all_cleaned flags [] = tt
SameKeys-all_cleaned flags (r ∷ rs) = elim (Bool-cases (is_shown flags r)) [
  | inl shown ↦ simp shown (refl, refl, SameKeys-all_cleaned flags rs)
  | inr hidden ↦ simp hidden (refl, refl, SameKeys-all_cleaned flags rs)
]

Agrees-erased :
    (abi : Abi) (o o' : Option AllocRecord) (c t : ℕ)
    → erased o ≡ erased o'
    → Agrees abi o c t
    → Agrees abi o' c t
Agrees-erased abi none none c t e h = h
Agrees-erased abi none (some r) c t e h = absurd (cc e)
Agrees-erased abi (some r) none c t e h = absurd (cc e)
Agrees-erased abi (some r) (some r') c t e h = (sym (ap cnt_of e) ∙ h.0, sym (ap total_of e) ∙ h.1)
  where
    cnt_of : Option AllocRecord → ℕ
    cnt_of none = 0
    cnt_of (some x) = x.cnt

    total_of : Option AllocRecord → ℕ
    total_of none = 0
    total_of (some x) = x.mem_total

-- The messages of a report on a list of records.
unfoldable pub report_of : ℕ → List AllocRecord → List Message
report_of flags xs =
    (if is_tight flags then tight_title else title) ∷ lines flags xs
    ++ (if is_tight flags then newline ∷ [] else [])

memleak_report-run :
    (fuel flags first : ℕ) (s : Memleak) (f : ℕ → Option AllocRecord) (xs : List AllocRecord)
    (tight : Bool)
    → is_tight flags ≡ tight
    → s.rec_lock ≡ false
    → s.next alloc_list ≡ some first
    → report_loop flags fuel first
        (record s { rec_lock = true; log = s.log ++ (if tight then tight_title else title) ∷ [] })
      ≡ ok tt (record s {
        rec_lock = true;
        records = f;
        log = (s.log ++ (if tight then tight_title else title) ∷ []) ++ lines flags xs;
      })
    → memleak_report fuel flags s
      ≡ ok tt (record s { records = f; rec_lock = false; log = s.log ++ report_of flags xs })
unfolding memleak_report lock unlock load_next ml_log report_of
memleak_report-run fuel flags first s f xs true tight unlocked starts runs =
    simp (tight, unlocked, starts, runs)
      (ap (λ ms. ok tt (record s { records = f; rec_lock = false; log = ms }))
        (append_assoc (s.log ++ tight_title ∷ []) (lines flags xs) (newline ∷ [])
          ∙ append_assoc s.log (tight_title ∷ []) (lines flags xs ++ newline ∷ [])))
memleak_report-run fuel flags first s f xs false tight unlocked starts runs =
    simp (tight, unlocked, starts, runs)
      (ap (λ ms. ok tt (record s { records = f; rec_lock = false; log = ms }))
        (append_assoc s.log (title ∷ []) (lines flags xs)
          ∙ ap (λ ms. s.log ++ title ∷ ms) (sym (append-nil (lines flags xs)))))

-- In a state where the bookkeeping is in order, and with fuel for one round more than there are
-- records, `memleak_report` ends. It logs the title, one line for each record that the flags let
-- through, in the order of files and lines, and a newline in the tight form; it clears the marks of
-- the records shown and no others, leaves the blocks, and the bookkeeping is in order again.
pub memleak_report-IsSound :
    (abi : Abi) (fuel flags : ℕ) (s : Memleak) (nodes : List ℕ) (xs : List AllocRecord)
    → IsSound abi s nodes xs
    → length nodes < fuel
    → (s' : Memleak) × (memleak_report fuel flags s ≡ ok tt s')
      × IsSound abi s' nodes (all_cleaned flags xs)
      × (s'.log ≡ s.log ++ report_of flags xs)
      × (s'.blocks ≡ s.blocks)
memleak_report-IsSound abi fuel flags s nodes xs sound more =
    let first_message : Message = if is_tight flags then tight_title else title in
    let s1 = record s { rec_lock = true; log = s.log ++ first_message ∷ [] } in
    let (f, runs, held, same, kept) =
      report_loop-Reported flags fuel alloc_list s1 nodes xs sound.list.linked sound.list.apart
        sound.list.distinct sound.list.held more in
    (
      record s { records = f; rec_lock = false; log = s.log ++ report_of flags xs },
      memleak_report-run fuel flags (first_or nodes alloc_list) s f xs (is_tight flags) refl
          sound.list.unlocked
          (next-Linked s.next s.prev alloc_list alloc_list nodes sound.list.linked) runs,
      record {
        list = record {
          linked = sound.list.linked;
          apart = sound.list.apart;
          distinct = sound.list.distinct;
          held = held;
          unlocked = refl;
        };
        sorted =
            IsSorted-SameKeys xs (all_cleaned flags xs) (SameKeys-all_cleaned flags xs)
              sound.sorted;
        only = λ q away. kept q away ∙ sound.only q away;
        balanced = λ p.
            Agrees-erased abi (s.records p) (f p) (count_at abi p s.blocks)
              (total_at abi p s.blocks) (same p) (sound.balanced p);
      },
      refl,
      refl,
    )

-- The lines of the report at exit.
unfoldable pub unclean_lines : List AllocRecord → List Message
unclean_lines [] = []
unclean_lines (r ∷ rs) = unclean r.cnt r.file r.line r.overallocations ∷ unclean_lines rs

exit_loop-run :
    (fuel a : ℕ) (s : Memleak) (ps : List ℕ) (xs : List AllocRecord)
    → Linked s.next s.prev a ps alloc_list
    → NotIn alloc_list ps
    → Held s.records ps xs
    → length ps < fuel
    → exit_loop fuel (first_or ps alloc_list) s
      ≡ ok tt (record s { log = s.log ++ unclean_lines xs })
unfolding exit_loop load_next load_record ml_log unclean_lines
exit_loop-run zero a s ps xs l out h more = absurd (omega arith)
exit_loop-run (suc fuel) a s [] [] l out h more =
    ap (λ ms. ok tt (record s { log = ms })) (sym (append-nil s.log))
exit_loop-run (suc fuel) a s [] (r ∷ rs) l out h more = elim h [ ]
exit_loop-run (suc fuel) a s (p ∷ ps) [] l out h more = elim h [ ]
exit_loop-run (suc fuel) a s (p ∷ ps) (r ∷ rs) l out h more =
    let line = unclean r.cnt r.file r.line r.overallocations in
    simp (not_head p out.0, h.0, next-Linked s.next s.prev p alloc_list ps l.1)
      (exit_loop-run fuel p (record s { log = s.log ++ line ∷ [] }) ps rs l.1 out.1 h.1
          (omega arith)
        ∙ ap (λ ms. ok tt (record s { log = ms }))
            (append_assoc s.log (line ∷ []) (unclean_lines rs)))

-- In memory that holds a list of records, with the mutex free and with fuel for one round more than
-- there are records, the report at exit ends. It logs its title and one line for each record, those
-- with a count of 0 too, in the list's order, and changes nothing else.
pub exit_checker-run :
    (fuel : ℕ) (s : Memleak) (nodes : List ℕ) (xs : List AllocRecord)
    → IsList s nodes xs
    → length nodes < fuel
    → exit_checker fuel s ≡ ok tt (record s { log = s.log ++ exited ∷ unclean_lines xs })
unfolding exit_checker lock unlock load_next ml_log
exit_checker-run fuel s nodes xs list more =
    simp
      (
        list.unlocked,
        next-Linked s.next s.prev alloc_list alloc_list nodes list.linked,
        exit_loop-run fuel alloc_list (record s { rec_lock = true; log = s.log ++ exited ∷ [] })
            nodes xs list.linked list.apart list.held more,
      )
      (ap (λ ms. ok tt (record s { rec_lock = false; log = ms }))
        (append_assoc s.log (exited ∷ []) (unclean_lines xs)))
