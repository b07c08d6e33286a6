-- ===== src/Mcuio/Irq.antt =====
-- mcuio/mcuio_irq_controller_msg.c: the message to the host that a function asks for an interrupt.
-- The printed warnings are left out; the packet is `to_host` of the controller's runtime.
use bathos_mcuio.Prelude.{
  ℕ, ◌+◌, ◌*◌, ◌^◌, ◌<◌, ◌≡◌, refl, true, false, ltb, ◌==◌, arith, if◌then◌else◌,
}
use bathos_mcuio.Event.{Pending, trigger_event}
use bathos_mcuio.Mcuio.Packet.{
  Packet, packet_is_write, packet_is_reply, packet_is_error, packet_data_len,
}

-- `struct mcuio_function_irq_data`
pub record IrqData : Type 0 where
  pub irq_func : ℕ
  pub active : ℕ

-- The packet for a function, with `mcuio_type_wrdw`.
unfoldable pub irq_message : ℕ → Packet
irq_message func = record {
  offset = 0xf80 + func * 4;
  func = 1;
  dev = 0;
  bus = 0;
  typ = 5;
  data0 = 2 ^ func;
  data1 = 0;
  crc = 0;
  dummy = 0;
}

-- `mcuio_irq_handle`, with the event mcuio_function_request and the address of the packet.
unfoldable pub irq_handle : ℕ → ℕ → IrqData → Packet → Pending → Packet × Pending
unfolding irq_message
irq_handle request address idata p s =
    let message = irq_message idata.irq_func in
    if ltb 31 idata.irq_func
    then (p, s)
    else if idata.active == 0
    then (p, s)
    else (message, (trigger_event request address s).1)

-- An active function below 32 has a write of four bytes sent, neither a reply nor an error.
irq_handle-write :
    (request address : ℕ) (idata : IrqData) (p : Packet) (s : Pending)
    → idata.irq_func < 32
    → (idata.active == 0) ≡ false
    → let (p', s') = irq_handle request address idata p s in
      (packet_is_write p' ≡ true)
      × (packet_is_reply p' ≡ false)
      × (packet_is_error p' ≡ false)
      × (packet_data_len p' ≡ 4)
      × (p'.data0 ≡ 2 ^ idata.irq_func)
      × (s' ≡ (trigger_event request address s).1)
unfolding irq_handle irq_message
irq_handle-write request address idata p s small on =
    let low : ltb 31 idata.irq_func ≡ false = ground (arith, small) in
    rw (low, on) (refl, refl, refl, refl, refl, refl)
