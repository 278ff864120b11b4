-- ===== src/Tcp/Timer/Tests.antt =====
-- A connection whose segment nobody answers, and the theorem on its end at it.
use ns_stack.Base.{ℕ, ◌≡◌, refl, true, false, some, List, [], ◌∷◌, arith}
use ns_stack.Ring
use ns_stack.Segment.{Segment, zero_hdr}
use ns_stack.Tcp.{Config, close, fin_wait1, Tcb, Env, plain_byte}
use ns_stack.Tcp.Timer.Retransmit.{run_timer}
use ns_stack.Tcp.Timer.Expire.{run_timer_closes}

abbrev config : Config
config = record {
  send_buffer_size = 4;
  recv_buffer_size = 4;
  max_segment_size = 22;
  timeout = 100;
  msl = 10;
  max_retrans = 2;
}

abbrev fin_seg : Segment
fin_seg = record {
  hdr = record zero_hdr { fin = true; ack = true };
  payload = [];
  src = 1;
  dst = 2;
}

abbrev unanswered : Tcb
unanswered = record {
  state = fin_wait1;
  passive = false;
  local = record { addr = 1; port = 80 };
  remote = record { addr = 2; port = 90 };
  send = record {
    init_seq = 100;
    next = 102;
    unack = 101;
    buf = Ring.init 4 (plain_byte 0);
    last_seg = some fin_seg;
    retrans_count = 0;
    last_sent_time = 1000;
  };
  recv = record { init_seq = 200; next = 201; buf = Ring.init 4 0 };
}

abbrev at_time : ℕ → Env
at_time t = record { now = t; sends = true }

abbrev rounds : List Env
rounds = at_time 1100 ∷ at_time 1200 ∷ at_time 1350 ∷ []

run_timer_closes_example :
    (u : Tcb) × (sent : List Segment) × (run_timer config rounds unanswered ≡ some (u, sent))
    × (u.state ≡ close)
run_timer_closes_example =
    run_timer_closes config rounds unanswered
      (record {
        last = record {
          seg = fin_seg;
          there = refl;
          src_set = λ e. ground arith;
          dst_set = λ e. ground arith;
        };
        waits = refl;
        open_still = λ e. cc;
        not_ending = λ e. cc;
      })
      (omega arith, omega arith, (omega arith, omega arith, (omega arith, omega arith, tt)))
      (omega arith)
