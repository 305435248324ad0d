-- ===== src/Sfu/Setup.antt =====
-- media-svc/sfu/Router.cpp: who subscribes to whom. Each operation holds `_mutex` throughout, and is
-- one step. `none` is a fault: a read through a pointer to a `Consumer` that was freed.
pub mod Subscription
pub mod Waiting
use namecon.Common.{
  ℕ, suc, zero, ◌+◌, Bool, true, false, not, ◌&&◌, List, [], ◌∷◌, ◌++◌, Option, none, some, ◌==◌,
  bool_eq, if◌then◌else◌,
}
use namecon.Common.Bytes.{Bytes, be16, be32}
use namecon.Common.Int.{pos}
use namecon.Common.Store.{update, insert, erase, ◌>>=◌}
use namecon.Transport.Srtp.{Lib}
use namecon.Sfu.Types.{Consumer, Producer, Peer}
use namecon.Sfu.RouteTable.{bind, unbind_peer}
use namecon.Sfu.State.{Router, set_peer, set_consumer, register_peer, send_rtcp}

-- The `do … while (ssrc == 0)` of `allocateSsrc`. `dis n` is the n-th value that the uniform
-- distribution over 0x40000000 .. 0x7FFFFFFF draws from the generator; `none` means out of fuel.
unfoldable pub allocate_ssrc : ℕ → (ℕ → ℕ) → ℕ → Option (ℕ × ℕ)
allocate_ssrc zero dis n = none
allocate_ssrc (suc fuel) dis n =
    let again = allocate_ssrc fuel dis (n + 1) in if dis n == 0 then again else some (dis n, n + 1)

abbrev pub new_consumer : ℕ → ℕ → Bool → ℕ → Consumer
new_consumer sub pub_ is_video out_ssrc = record {
  subscriber = some sub;
  publisher = some pub_;
  is_video = is_video;
  rewritten_ssrc = out_ssrc;
  publisher_ssrc = 0;
  recv_mid = "";
  seq_initialized = false;
  last_sent_seq = 0;
  last_sent_timestamp = 0;
  seq_delta = pos 0;
  ts_delta = pos 0;
  packets_sent = 0;
  octets_sent = 0;
  last_sr_ntp_ts = 0;
  last_sr_rtp_ts = 0;
  active = true;
}

-- The first producer of the kind that has an SSRC: what `addConsumer` copies out of it, and the
-- producers with the consumer added to it.
abbrev pub attachable : Bool → Producer → Bool
attachable is_video p = bool_eq p.is_video is_video && not (p.original_ssrc == 0)

unfoldable pub attached_ssrc : Bool → List Producer → ℕ
attached_ssrc is_video [] = 0
attached_ssrc is_video (p ∷ ps) =
    if attachable is_video p then p.original_ssrc else attached_ssrc is_video ps

unfoldable pub attach : ℕ → Bool → List Producer → List Producer
attach c is_video [] = []
attach c is_video (p ∷ ps) =
    if attachable is_video p
    then record p { consumers = p.consumers ++ (c ∷ []) } ∷ ps
    else p ∷ attach c is_video ps

-- `std::remove` and `erase` on a vector of pointers.
unfoldable pub without : ℕ → List ℕ → List ℕ
without c [] = []
without c (d ∷ ds) = if d == c then without c ds else d ∷ without c ds

-- The consumer is taken out of the first producer that has the SSRC, which must not be 0.
unfoldable pub unlink_from : ℕ → ℕ → List Producer → List Producer
unlink_from ssrc c [] = []
unlink_from ssrc c (p ∷ ps) =
    if p.original_ssrc == ssrc && not (p.original_ssrc == 0)
    then record p { consumers = without c p.consumers } ∷ ps
    else p ∷ unlink_from ssrc c ps

unfoldable pub find_producer : ℕ → List Producer → Option Producer
find_producer ssrc [] = none
find_producer ssrc (p ∷ ps) = if p.original_ssrc == ssrc then some p else find_producer ssrc ps

abbrev pub is_peer : Option ℕ → ℕ → Bool
is_peer none q = false
is_peer (some p) q = p == q

-- A consumer that still waits for the first packet of the publisher's stream of this kind.
abbrev pub waiting : Consumer → ℕ → Bool → Bool
waiting k q is_video =
    is_peer k.publisher q && (bool_eq k.is_video is_video && k.publisher_ssrc == 0)

abbrev Heap : Type 0
Heap = ℕ → Option Consumer

-- The loop over every subscription that links the waiting consumers, in order.
unfoldable pub link : List ℕ → ℕ → Bool → ℕ → Heap → List ℕ → Option (Heap × List ℕ)
link [] q is_video ssrc h linked = some (h, linked)
link (c ∷ cs) q is_video ssrc h linked = do
  k ← h c
  link cs q is_video ssrc
      (if waiting k q is_video then update h c (some (record k { publisher_ssrc = ssrc })) else h)
      (if waiting k q is_video then linked ++ (c ∷ []) else linked)

-- The 12 bytes of a PLI for a media SSRC; the sender SSRC is 0.
abbrev pub pli_for : ℕ → Bytes
pli_for ssrc = (0x81 ∷ 206 ∷ be16 2) ++ (be32 0 ++ be32 ssrc)

-- `consumers.clear()` frees the objects.
unfoldable pub free : List ℕ → Heap → Heap
free [] h = h
free (c ∷ cs) h = free cs (update h c none)

abbrev pub new_producer : ℕ → ℕ → Bool → List ℕ → Producer
new_producer q ssrc is_video linked = record {
  publisher = q;
  original_ssrc = ssrc;
  is_video = is_video;
  consumers = linked;
}

module _ {S D : Type 0} where
  -- The consumers of the peers on the list, one peer after the other.
  unfoldable pub subscriptions : (ℕ → Peer S D) → List ℕ → List ℕ
  subscriptions peers [] = []
  subscriptions peers (p ∷ ps) = (peers p).consumers ++ subscriptions peers ps

  abbrev pub with_producers : ℕ → List Producer → Router S D → Router S D
  with_producers q ps r = set_peer q (record (r.peers q) { producers = ps }) r

  abbrev pub with_consumers : ℕ → List ℕ → Router S D → Router S D
  with_consumers q cs r = set_peer q (record (r.peers q) { consumers = cs }) r

  -- `addConsumer` behind the allocation of the SSRC and the registration of both peers: enter the
  -- map, join a producer that is there already, and hand the object over to the subscriber.
  unfoldable pub join : ℕ → ℕ → Bool → ℕ → ℕ → Router S D → Router S D
  join sub pub_ is_video ssrc draws r =
      let c = r.next in
      let ps = (r.peers pub_).producers in
      let k = record (new_consumer sub pub_ is_video ssrc) {
        publisher_ssrc = attached_ssrc is_video ps;
      } in
      let r₁ = with_producers pub_ (attach c is_video ps) r in
      let r₂ = with_consumers sub ((r₁.peers sub).consumers ++ (c ∷ [])) r₁ in
      record r₂ {
        consumers = update r.consumers c (some k);
        next = c + 1;
        out_ssrcs = insert ssrc c r.out_ssrcs;
        draws = draws;
      }

  unfoldable pub subscribe : ℕ → ℕ → Bool → ℕ → ℕ → Router S D → Router S D
  subscribe sub pub_ is_video ssrc draws r =
      join sub pub_ is_video ssrc draws (register_peer pub_ (register_peer sub r))

  unfoldable pub add_consumer : (ℕ → ℕ) → ℕ → ℕ → Bool → Router S D → Option (ℕ × Router S D)
  add_consumer dis sub pub_ is_video r = do
    (ssrc, draws) ← allocate_ssrc 1 dis r.draws
    some (ssrc, subscribe sub pub_ is_video ssrc draws r)

  -- `removePeer`, first loop: the consumers of the peer's own streams fall silent.
  unfoldable pub silence : List ℕ → Router S D → Option (Router S D)
  silence [] r = some r
  silence (c ∷ cs) r = do
    k ← r.consumers c
    silence cs (record (set_consumer c (record k { publisher = none; active = false }) r) {
      out_ssrcs = erase k.rewritten_ssrc r.out_ssrcs;
    })

  unfoldable pub silence_all : List Producer → Router S D → Option (Router S D)
  silence_all [] r = some r
  silence_all (p ∷ ps) r = do r' ← silence p.consumers r; silence_all ps r'

  abbrev pub unlink_at : ℕ → Consumer → Option ℕ → Router S D → Router S D
  unlink_at c k none r = r
  unlink_at c k (some q) r =
      with_producers q (unlink_from k.publisher_ssrc c (r.peers q).producers) r

  -- `removePeer`, second loop: the peer's own subscriptions leave their producers.
  unfoldable pub unsubscribe : List ℕ → Router S D → Option (Router S D)
  unsubscribe [] r = some r
  unsubscribe (c ∷ cs) r = do
    k ← r.consumers c
    unsubscribe cs
        (record (unlink_at c k k.publisher r) { out_ssrcs = erase k.rewritten_ssrc r.out_ssrcs })

  abbrev pub clear_consumers : ℕ → Router S D → Router S D
  clear_consumers p r = record (with_consumers p [] r) {
    consumers = free (r.peers p).consumers r.consumers;
  }

  unfoldable pub remove_peer : ℕ → Router S D → Option (Router S D)
  remove_peer p r = do
    r₁ ← silence_all (r.peers p).producers r
    let r₂ = with_producers p [] r₁
    r₃ ← unsubscribe (r₂.peers p).consumers r₂
    let r₄ = clear_consumers p r₃
    some (record r₄ { all_peers = without p r₄.all_peers; table = unbind_peer p r₄.table })

  module _ ⦃lib : Lib S⦄ where
    -- `if (isVideo && fromPeer->srtp)`: ask a new video stream for a key frame.
    abbrev pub ask_key_frame : ℕ → ℕ → Bool → Router S D → Router S D
    ask_key_frame q ssrc is_video r = if is_video then (send_rtcp q (pli_for ssrc) r).0 else r

    -- The producer joins the peer's list with the consumers that the loop below it links; nothing
    -- reads the list in between.
    unfoldable pub create_producer : ℕ → ℕ → Bool → Router S D → Option (Router S D × Producer)
    create_producer q ssrc is_video r = do
      let r₁ = ask_key_frame q ssrc is_video (record r { table = bind ssrc q r.table })
      (h, linked) ← link (subscriptions r₁.peers r₁.all_peers) q is_video ssrc r₁.consumers []
      let p = new_producer q ssrc is_video linked
      some (record (with_producers q ((r₁.peers q).producers ++ (p ∷ [])) r₁) { consumers = h }, p)

    abbrev found_or_created :
        ℕ → ℕ → Bool → Router S D → Option Producer → Option (Router S D × Producer)
    found_or_created q ssrc is_video r (some p) = some (r, p)
    found_or_created q ssrc is_video r none = create_producer q ssrc is_video r

    unfoldable pub find_or_create_producer :
        ℕ → ℕ → Bool → Router S D → Option (Router S D × Producer)
    find_or_create_producer q ssrc is_video r =
        found_or_created q ssrc is_video r (find_producer ssrc (r.peers q).producers)
