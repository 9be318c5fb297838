-- ===== src/Tests/Reports.antt =====
-- An example for the reports of the host: a numeric comparison that a peer asks for.
use blehostd.Prelude.{◌≡◌, refl, none, some, Bytes}
use blehostd.Prelude.Int.{pos}
use blehostd.Writer.Plain.{Node, node_writer, node_writer-IsFaithful}
use blehostd.Enc.Rsp.{encoded}
use blehostd.Enc.Send.{Evt, evt_enc}
use blehostd.Gap.{GapHost, passkey_action, returned, gap_event, send_passkey_action_evt}
use blehostd.Gap.Sent.{gap_event-encoded}
use blehostd.Tests.Data.{consts}
use blehostd.Tests.Requests.{sizes}
use blehostd.Tests.Messages.{host_text}

abbrev quiet_host : GapHost
quiet_host = record {
  Mbuf = Bytes;
  mbuf_to_flat = λ _ om. some om;
  adv_parse_fields = λ _. none;
  conn_find = λ _. none;
  get_be16 = λ _ _. 0;
  adv_max_sz = 31;
  adv_max_field_sz = 29;
  cid_att = 4;
  repeat_pairing_retry = pos 1;
}

abbrev compared : Evt
compared = send_passkey_action_evt 1 4 123456 9

handled :
    (gap_event quiet_host 512 (passkey_action 1 4 123456) 9 0xfffffff1).0 ≡ returned (some compared)
unfolding gap_event
handled = refl

gap_event-encoded_example :
    ((root : Node) × (evt_enc node_writer host_text consts sizes compared ≡ encoded (some root)))
    × (compared.hdr.seq ≡ 9)
gap_event-encoded_example =
    gap_event-encoded node_writer-IsFaithful host_text consts sizes quiet_host 512
      (passkey_action 1 4 123456) 9 0xfffffff1 compared handled
