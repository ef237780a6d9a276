-- ===== src/ByeDpi/Desync/Tests.antt =====
-- Runs of the loop of `desync` on small messages, and the theorems at concrete inputs.
use zon_dpi.Prelude.{
  ℕ, zero, suc, ◌+◌, ◌≡◌, refl, false, some, List, [], ◌∷◌, length, take, drop, arith,
}
use zon_dpi.Prelude.Int.{pos, ◌+ℤ◌}
use zon_dpi.ByeDpi.Tls.Hello.Names.{encode_hello}
use zon_dpi.ByeDpi.Tls.Tests.{hello, hello-IsHello}
use zon_dpi.ByeDpi.Desync.{
  Part, Info, has, offset_rand, offset_sni, no_info, gen_offset, in_message, desync_split,
  desync_disorder,
}
use zon_dpi.ByeDpi.Desync.Loop.{
  Setting, Run, Sent, accepted, rest, part, desync_parts, loop, round, place_part, send_part,
  send_rest, judge, judge_rest, mark_sent, expand, times,
}
use zon_dpi.ByeDpi.Desync.Coverage.{TakesRest, Delivers}
use zon_dpi.ByeDpi.Desync.Offsets.{gen_offset-server_name}
use zon_dpi.ByeDpi.Desync.Total.{desync_parts-Delivers}
use zon_dpi.ByeDpi.Desync.Lost.{Took, Overstates, desync_parts-Overstates}

is_fixed : has 0 offset_rand ≡ false
unfolding has
is_fixed = refl

-- Eight bytes; the socket takes the parts that end at 3 and at 6, and the rest.
abbrev answers : ℕ → Sent
answers zero = accepted 2
answers (suc n) = accepted 3

abbrev socket : Setting
socket = record {
  buf = 1 ∷ 2 ∷ 3 ∷ 4 ∷ 5 ∷ 6 ∷ 7 ∷ 8 ∷ [];
  size = 8;
  offset = 0;
  round_sent = 0;
  part_skip = 0;
  wait_send = false;
  answer = answers;
  has_notsent = λ k. false;
  rand = λ k. 0;
}

abbrev parts : List Part
parts =
    record { m = desync_split; flag = 0; at = pos 3; r = 0; s = 0 }
    ∷ record { m = desync_disorder; flag = 0; at = pos 6; r = 0; s = 0 }
    ∷ []

sent_in_order :
    desync_parts socket parts no_info 0
    ≡ some record {
      ret = pos 8;
      wait = false;
      part_sent = 2;
      events =
          part desync_split 0 3 (accepted 3)
          ∷ part desync_disorder 3 6 (accepted 3)
          ∷ rest 6 8 (accepted 2)
          ∷ [];
    }
unfolding desync_parts loop round place_part send_part send_rest judge judge_rest mark_sent expand
    times gen_offset in_message has ◌+ℤ◌
sent_in_order = refl

gen_offset-server_name_example :
    (p : ℕ) × (info : Info) × (gen_offset 5
        (pos 2)
        offset_sni
        (encode_hello hello)
        (length (encode_hello hello))
        0
        no_info
      ≡ some (pos (2 + p), info))
    × (take (length hello.name) (drop p (encode_hello hello)) ≡ hello.name)
gen_offset-server_name_example = gen_offset-server_name hello 5 2 0 hello-IsHello

desync_parts-Delivers_example :
    (r : Run) × (desync_parts socket parts no_info 0 ≡ some r)
    × (TakesRest r.events → Delivers 0 0 r)
desync_parts-Delivers_example =
    desync_parts-Delivers socket parts no_info 0 (omega arith) (omega arith)
      (is_fixed, (is_fixed, tt))

-- The last `send` takes one byte of two.
abbrev short_answers : ℕ → Sent
short_answers zero = accepted 1
short_answers (suc n) = accepted 3

abbrev short_socket : Setting
short_socket = record socket { answer = short_answers }

lost_byte :
    desync_parts short_socket parts no_info 0
    ≡ some record {
      ret = pos 8;
      wait = false;
      part_sent = 2;
      events =
          part desync_split 0 3 (accepted 3)
          ∷ part desync_disorder 3 6 (accepted 3)
          ∷ rest 6 8 (accepted 1)
          ∷ [];
    }
unfolding desync_parts loop round place_part send_part send_rest judge judge_rest mark_sent expand
    times gen_offset in_message has ◌+ℤ◌
lost_byte = refl

desync_parts-Overstates_example :
    (r : Run) × (desync_parts short_socket parts no_info 0 ≡ some r)
    × ((from to k : ℕ) → Took from to k r.events → Overstates short_socket 0 from to k r)
desync_parts-Overstates_example =
    desync_parts-Overstates short_socket parts no_info 0 (omega arith) (omega arith)
      (is_fixed, (is_fixed, tt))
