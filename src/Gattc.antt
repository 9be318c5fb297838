-- ===== src/Gattc.antt =====
-- apps/blehostd/src/bhd_gattc.c: the requests of the GATT client to the host, and the callbacks, which turn
-- what the host reports into events; and bhd_send_mtu_changed of bhd_util.c.
pub mod Runs
pub mod Owned
use blehostd.Prelude.{
  ℕ, zero, suc, Option, none, some, List, [], ◌∷◌, ◌++◌, Bytes, String, if◌then◌else◌, length,
  get_elem?, not,
}
use blehostd.Prelude.Int.{ℤ, pos, eqz}
use blehostd.Status.{Error, sys_enomem}
use blehostd.Uuid.{Uuid, uuid16}
use blehostd.Proto.Numbers.{
  op_evt, type_disc_svc_evt, type_disc_chr_evt, type_disc_dsc_evt, type_write_ack_evt,
  type_mtu_change_evt,
}
use blehostd.Req.Types.{DiscSvcUuidReq, DiscAllReq, DiscChrUuidReq, WriteReq}
use blehostd.Enc.Evt.{
  EvtBody, DiscSvcEvt, DiscChrEvt, DiscDscEvt, disc_svc_evt, disc_chr_evt, disc_dsc_evt,
  write_ack_evt, mtu_change_evt,
}
use blehostd.Enc.Send.{Evt}

-- A block of the heap: `struct bhd_gattc_disc_chr_arg` or `struct bhd_gattc_disc_dsc_arg`, each with its
-- sequence number and its handle.
pub data Block : Type 0 where
  chr_arg : ℕ → ℕ → Block
  dsc_arg : ℕ → ℕ → Block

-- A block is freed once; a second `free` of it is undefined behaviour, and stays visible.
pub data Cell : Type 0 where
  live : Block → Cell
  freed : Cell
  freed_twice : Cell

-- The blocks that were allocated. A pointer is an index, and `malloc_success` gives a new one.
abbrev pub Heap : Type 0
Heap = List Cell

abbrev pub release : Cell → Cell
release (live block) = freed
release freed = freed_twice
release freed_twice = freed_twice

unfoldable pub free : ℕ → Heap → Heap
free arg [] = []
free zero (cell ∷ heap) = release cell ∷ heap
free (suc arg) (cell ∷ heap) = cell ∷ free arg heap

-- What the host reports: `struct ble_gatt_svc`, `struct ble_gatt_chr` and `struct ble_gatt_dsc`.
pub record GattSvc : Type 0 where
  pub start_handle : ℕ
  pub end_handle : ℕ
  pub uuid : Uuid

pub record GattChr : Type 0 where
  pub def_handle : ℕ
  pub val_handle : ℕ
  pub properties : ℕ
  pub uuid : Uuid

pub record GattDsc : Type 0 where
  pub handle : ℕ
  pub uuid : Uuid

-- The fields after `memset`; the type of the UUID is then none of the host's, and is not read.
abbrev no_svc : GattSvc
no_svc = record { start_handle = 0; end_handle = 0; uuid = uuid16 0 }

abbrev no_chr : GattChr
no_chr = record { def_handle = 0; val_handle = 0; properties = 0; uuid = uuid16 0 }

abbrev no_dsc : GattDsc
no_dsc = record { handle = 0; uuid = uuid16 0 }

-- The callbacks: `status` is `error->status`. The result is the event given to `bhd_evt_send`, whose own
-- result is not read.
unfoldable pub disc_svc_cb : ℕ → ℤ → GattSvc → ℕ → Evt
disc_svc_cb conn_handle status service seq =
    let svc = if eqz status (pos 0) then service else no_svc in
    record {
      hdr = record { op = op_evt; type = type_disc_svc_evt; seq = seq };
      body = disc_svc_evt (record {
        conn_handle = conn_handle;
        status = status;
        start_handle = svc.start_handle;
        end_handle = svc.end_handle;
        uuid = svc.uuid;
      });
    }

unfoldable pub disc_chr_event : ℕ → ℤ → GattChr → ℕ → Evt
disc_chr_event conn_handle status reported seq =
    let chr = if eqz status (pos 0) then reported else no_chr in
    record {
      hdr = record { op = op_evt; type = type_disc_chr_evt; seq = seq };
      body = disc_chr_evt (record {
        conn_handle = conn_handle;
        status = status;
        def_handle = chr.def_handle;
        val_handle = chr.val_handle;
        properties = chr.properties;
        uuid = chr.uuid;
      });
    }

-- `none` stands for a read of a block that was freed, or is not of this kind. The block is freed before
-- the event is sent.
unfoldable pub disc_chr_cb : ℕ → ℤ → GattChr → ℕ → Heap → Option (Evt × Heap)
unfolding disc_chr_event free
disc_chr_cb conn_handle status chr arg heap = elim (get_elem? heap arg) [
  | some (live (chr_arg seq svc_start_handle)) ↦ some (
    disc_chr_event conn_handle status chr seq,
    if eqz status (pos 0) then heap else free arg heap,
  )
  | _ ↦ none
]

unfoldable pub disc_dsc_event : ℕ → ℤ → ℕ → GattDsc → ℕ → Evt
disc_dsc_event conn_handle status chr_def_handle reported seq =
    let dsc = if eqz status (pos 0) then reported else no_dsc in
    record {
      hdr = record { op = op_evt; type = type_disc_dsc_evt; seq = seq };
      body = disc_dsc_evt (record {
        conn_handle = conn_handle;
        status = status;
        chr_def_handle = chr_def_handle;
        handle = dsc.handle;
        uuid = dsc.uuid;
      });
    }

unfoldable pub disc_dsc_cb : ℕ → ℤ → ℕ → GattDsc → ℕ → Heap → Option (Evt × Heap)
unfolding disc_dsc_event free
disc_dsc_cb conn_handle status chr_def_handle dsc arg heap = elim (get_elem? heap arg) [
  | some (live (dsc_arg seq chr_val_handle)) ↦ some (
    disc_dsc_event conn_handle status chr_def_handle dsc seq,
    if eqz status (pos 0) then heap else free arg heap,
  )
  | _ ↦ none
]

-- `attr_handle` is `attr->handle`.
unfoldable pub write_cb : ℕ → ℤ → ℕ → ℕ → Evt
write_cb conn_handle status attr_handle seq = record {
  hdr = record { op = op_evt; type = type_write_ack_evt; seq = seq };
  body = write_ack_evt conn_handle attr_handle status;
}

unfoldable pub send_mtu_changed : ℕ → ℕ → ℤ → ℕ → Evt
send_mtu_changed seq conn_handle status mtu = record {
  hdr = record { op = op_evt; type = type_mtu_change_evt; seq = seq };
  body = mtu_change_evt conn_handle mtu status;
}

unfoldable pub mtu_cb : ℕ → ℤ → ℕ → ℕ → Evt
unfolding send_mtu_changed
mtu_cb conn_handle status mtu seq = send_mtu_changed seq conn_handle status mtu

-- A response: a status, or the error that `bhd_err_build` writes.
pub data Reply : Type 0 where
  status_reply : ℤ → Reply
  err_reply : Error → String → Reply

-- The host's functions that the client calls, by what they return; a callback and its argument are the
-- last arguments of the C functions, here the sequence number or the pointer.
pub record GattHost : Type 1 where
  pub Mbuf : Type 0
  pub mbuf_from_flat : Bytes → Option Mbuf
  pub disc_all_svcs : ℕ → ℕ → ℤ
  pub disc_svc_by_uuid : ℕ → Uuid → ℕ → ℤ
  pub disc_all_chrs : ℕ → ℕ → ℕ → ℕ → ℤ
  pub disc_chrs_by_uuid : ℕ → ℕ → ℕ → Uuid → ℕ → ℤ
  pub disc_all_dscs : ℕ → ℕ → ℕ → ℕ → ℤ
  pub write : ℕ → ℕ → Mbuf → ℕ → ℤ
  pub write_no_rsp : ℕ → ℕ → Mbuf → ℤ
  pub exchange_mtu : ℕ → ℕ → ℤ
  pub set_preferred_mtu : ℕ → ℤ
  pub notify_custom : ℕ → ℕ → Mbuf → ℤ

-- The block of a call that the host refuses is freed.
unfoldable pub free_refused : ℤ → ℕ → Heap → Heap
unfolding free
free_refused rc arg heap = if eqz rc (pos 0) then heap else free arg heap

module _ (host : GattHost) where
  unfoldable pub gattc_disc_all_svcs : ℕ → ℕ → Reply
  gattc_disc_all_svcs seq conn_handle = status_reply (host.disc_all_svcs conn_handle seq)

  unfoldable pub gattc_disc_svc_uuid : ℕ → DiscSvcUuidReq → Reply
  gattc_disc_svc_uuid seq req =
      status_reply (host.disc_svc_by_uuid req.conn_handle req.svc_uuid seq)

  unfoldable pub gattc_disc_all_chrs : ℕ → DiscAllReq → Heap → ℤ × Heap
  unfolding free_refused
  gattc_disc_all_chrs seq req heap =
      let arg = length heap in
      let filled = heap ++ (live (chr_arg seq req.start_attr_handle) ∷ []) in
      let rc = host.disc_all_chrs req.conn_handle req.start_attr_handle req.end_attr_handle arg in
      (rc, free_refused rc arg filled)

  unfoldable pub gattc_disc_chr_uuid : ℕ → DiscChrUuidReq → Heap → ℤ × Heap
  unfolding free_refused
  gattc_disc_chr_uuid seq req heap =
      let arg = length heap in
      let filled = heap ++ (live (chr_arg seq req.start_handle) ∷ []) in
      let rc =
        host.disc_chrs_by_uuid req.conn_handle req.start_handle req.end_handle req.chr_uuid arg in
      (rc, free_refused rc arg filled)

  unfoldable pub gattc_disc_all_dscs : ℕ → DiscAllReq → Heap → ℤ × Heap
  unfolding free_refused
  gattc_disc_all_dscs seq req heap =
      let arg = length heap in
      let filled = heap ++ (live (dsc_arg seq req.start_attr_handle) ∷ []) in
      let rc = host.disc_all_dscs req.conn_handle req.start_attr_handle req.end_attr_handle arg in
      (rc, free_refused rc arg filled)

  unfoldable pub gattc_write : ℕ → WriteReq → Reply
  gattc_write seq req = elim (host.mbuf_from_flat req.bytes) [
    | none ↦ err_reply sys_enomem "no mbufs available"
    | some om ↦ status_reply (host.write req.conn_handle req.attr_handle om seq)
  ]

  unfoldable pub gattc_write_no_rsp : WriteReq → Reply
  gattc_write_no_rsp req = elim (host.mbuf_from_flat req.bytes) [
    | none ↦ err_reply sys_enomem "no mbufs available"
    | some om ↦ status_reply (host.write_no_rsp req.conn_handle req.attr_handle om)
  ]

  unfoldable pub gattc_exchange_mtu : ℕ → ℕ → Reply
  gattc_exchange_mtu seq conn_handle = status_reply (host.exchange_mtu conn_handle seq)

  unfoldable pub gattc_set_preferred_mtu : ℕ → Reply
  gattc_set_preferred_mtu mtu = status_reply (host.set_preferred_mtu mtu)

  unfoldable pub gattc_notify : WriteReq → Reply
  gattc_notify req = elim (host.mbuf_from_flat req.bytes) [
    | none ↦ err_reply sys_enomem "no mbufs available"
    | some om ↦ status_reply (host.notify_custom req.conn_handle req.attr_handle om)
  ]
