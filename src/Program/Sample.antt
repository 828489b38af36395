-- ===== src/Program/Sample.antt =====
-- Two runs on one file with one function, from the first step to the last.
use tsag.Base.{◌≡◌, refl, true, [], ◌∷◌, some, codes, str_eq, strcmp, split_last}
use tsag.LineVec.{LineVec, line_vec_new, line_vec_uniq, line_vec_sort}
use tsag.Merge.{merge}
use tsag.Parse.File.{read_file, parse_file_lines}
use tsag.Queue.{put_item, drop_item, IoQueue, new_queue, io_queue_put, io_queue_get, io_queue_close}
use tsag.Lang.{find_extension, base_of}
use tsag.Parse.File.{parse_source, match_loop, match_body, claimed, place_line}
use tsag.Parse.Text.{has_long_line, back_limit, escape_pattern, fwd_limit, line_of, line_range}
use tsag.Parse.Match.{
  extract_match, make_line, name_is_printable, format_line, c_string, capture_loop, capture_step,
  found_match,
}
use tsag.LineVec.Dedup.{dedup_claim, dedup_init, claim_loop, dedup_track}
use tsag.LineVec.{line_vec_push, line_vec_replace}
use tsag.Pipeline.Sample.{outside, setup}
use tsag.Main.{queue_capacity}
use tsag.Program.{
  Job, begins, parses, puts, ended, begin, with_vec, parse_job, sort_batch, World, at_start, joins,
  awaits_merge, over, collects, merged, Reach, start, later, walk_puts, main_closes, main_joins,
  main_closes_batches, main_joins_merge, worker_begins, worker_parses, worker_sorts, worker_puts,
  merger_gets, merger_merges,
}

abbrev pub job : Job
job = (codes "x.c", outside)

abbrev pub one_line : LineVec
one_line = record { items = codes "f\tx.c\t/^int f();$/;\"\tfunc\n" ∷ []; cap = 128 }

begin_test : begin setup ≡ some (parses setup [] (record { items = []; cap = 128 }))
unfolding begin with_vec line_vec_new
begin_test = refl

parse_test :
    parse_job setup [] (record { items = []; cap = 128 }) job
    ≡ some (parses setup (job ∷ []) one_line)
unfolding parse_job parse_file_lines find_extension split_last read_file parse_source has_long_line
    match_loop match_body extract_match str_eq strcmp claimed dedup_claim dedup_init make_line
    name_is_printable line_vec_push format_line base_of claim_loop dedup_track line_vec_replace
    place_line c_string capture_loop capture_step found_match back_limit escape_pattern fwd_limit
    line_of line_range
parse_test = refl

sort_test : sort_batch setup (job ∷ []) one_line ≡ some (puts setup (job ∷ []) one_line)
unfolding sort_batch line_vec_uniq line_vec_sort
sort_test = refl

abbrev pub paths : IoQueue Job
paths = put_item (new_queue queue_capacity) job

abbrev no_paths : IoQueue Job
no_paths = record (drop_item paths) { closed = true }

abbrev batches : IoQueue LineVec
batches = put_item (new_queue 1) one_line

abbrev pub finish : World
finish = record {
  stage = over;
  queue = no_paths;
  workers = ended setup (job ∷ []) ∷ [];
  out_queue = drop_item (record batches { closed = true });
  merger = merged (one_line ∷ []) (merge 1 (one_line ∷ []));
}

walked : Reach (setup ∷ []) (job ∷ []) (record {
  stage = joins 0;
  queue = record paths { closed = true };
  workers = begins setup ∷ [];
  out_queue = new_queue 1;
  merger = collects [];
})
unfolding at_start io_queue_put io_queue_close new_queue
walked = later (later start (walk_puts job [] paths refl refl)) (main_closes refl)

parsed : Reach (setup ∷ []) (job ∷ []) (record {
  stage = joins 0;
  queue = no_paths;
  workers = puts setup (job ∷ []) one_line ∷ [];
  out_queue = new_queue 1;
  merger = collects [];
})
unfolding io_queue_get new_queue
parsed =
    later
      (later (later walked (worker_begins 0 setup _ refl begin_test))
        (worker_parses 0 setup [] _ job no_paths _ refl refl parse_test))
      (worker_sorts 0 setup (job ∷ []) one_line _ refl refl sort_test)

joined : Reach (setup ∷ []) (job ∷ []) (record {
  stage = awaits_merge;
  queue = no_paths;
  workers = ended setup (job ∷ []) ∷ [];
  out_queue = record batches { closed = true };
  merger = collects [];
})
unfolding io_queue_put io_queue_close new_queue
joined =
    later
      (later (later parsed (worker_puts 0 setup (job ∷ []) one_line batches refl refl))
        (main_joins 0 setup (job ∷ []) refl refl))
      (main_closes_batches refl)

pub finished : Reach (setup ∷ []) (job ∷ []) finish
unfolding io_queue_get new_queue
finished =
    later
      (later (later joined (merger_gets [] one_line _ refl refl))
        (merger_merges (one_line ∷ []) refl refl))
      (main_joins_merge _ _ refl refl)

-- Two workers: the second gets the path, and puts its batch first.
abbrev no_lines : LineVec
no_lines = record { items = []; cap = 128 }

sort_none : sort_batch setup [] no_lines ≡ some (puts setup [] no_lines)
unfolding sort_batch line_vec_uniq line_vec_sort
sort_none = refl

abbrev one_batch : IoQueue LineVec
one_batch = put_item (new_queue 2) one_line

abbrev two_batches : IoQueue LineVec
two_batches = put_item one_batch no_lines

abbrev pub finish_two : World
finish_two = record {
  stage = over;
  queue = no_paths;
  workers = ended setup [] ∷ ended setup (job ∷ []) ∷ [];
  out_queue = drop_item (drop_item (record two_batches { closed = true }));
  merger = merged (one_line ∷ no_lines ∷ []) (merge 2 (one_line ∷ no_lines ∷ []));
}

parsed_two : Reach (setup ∷ setup ∷ []) (job ∷ []) (record {
  stage = joins 0;
  queue = no_paths;
  workers = parses setup [] no_lines ∷ parses setup (job ∷ []) one_line ∷ [];
  out_queue = new_queue 2;
  merger = collects [];
})
unfolding at_start io_queue_put io_queue_get io_queue_close new_queue
parsed_two =
    later
      (later
        (later
          (later (later start (worker_begins 1 setup _ refl begin_test))
            (walk_puts job [] paths refl refl))
          (worker_parses 1 setup [] _ job (drop_item paths) _ refl refl parse_test))
        (main_closes refl))
      (worker_begins 0 setup _ refl begin_test)

put_two : Reach (setup ∷ setup ∷ []) (job ∷ []) (record {
  stage = joins 0;
  queue = no_paths;
  workers = ended setup [] ∷ ended setup (job ∷ []) ∷ [];
  out_queue = two_batches;
  merger = collects [];
})
unfolding io_queue_put io_queue_get new_queue
put_two =
    later
      (later
        (later (later parsed_two (worker_sorts 0 setup [] no_lines _ refl refl sort_none))
          (worker_sorts 1 setup (job ∷ []) one_line _ refl refl sort_test))
        (worker_puts 1 setup (job ∷ []) one_line one_batch refl refl))
      (worker_puts 0 setup [] no_lines two_batches refl refl)

pub finished_two : Reach (setup ∷ setup ∷ []) (job ∷ []) finish_two
unfolding io_queue_get io_queue_close new_queue
finished_two =
    later
      (later
        (later
          (later
            (later
              (later (later put_two (main_joins 0 setup [] refl refl))
                (main_joins 1 setup (job ∷ []) refl refl))
              (main_closes_batches refl))
            (merger_gets [] one_line _ refl refl))
          (merger_gets (one_line ∷ []) no_lines _ refl refl))
        (merger_merges (one_line ∷ no_lines ∷ []) refl refl))
      (main_joins_merge _ _ refl refl)
