-- ===== src/Email/Service.antt =====
-- src/modules/email/email.service.ts: `sendEmail`, `sendEmailOtp` and `sendEmailTransaction`. A failure to send is
-- logged and not passed on. The loggers have no effect on the program and are left out.
use vnst_be.Base.{Option, some, Text, Io, pure, try_catch}
use vnst_be.Schema.Chains.{Network}
use vnst_be.Schema.Notification.{NotificationType, mint, redeem}
use vnst_be.External.Infra.{Mail, Outside}
use vnst_be.Email.Templates.Otp.{otp_template}
use vnst_be.Email.Templates.Mint.{mint_template}
use vnst_be.Email.Templates.Redeem.{redeem_template}
use vnst_be.Email.Templates.Welcome.{template_welcome}
use vnst_be.Email.Templates.Layout.{send_email_template}

-- src/modules/email/dto/email.dto.ts: EmailDto and EmailOtpDto.
pub record Email : Type 0 where
  pub recipient : Text
  pub subject : Text
  pub text : Option Text

pub record EmailOtp : Type 0 where
  pub recipient : Text
  pub subject : Text
  pub otp : Text
  pub wallet_address : Text

-- The `message` of `sendEmailTransaction`.
pub record TransactionMessage : Type 0 where
  pub recipient : Option Text
  pub subject : Text
  pub wallet_address : Text
  pub transaction_hash : Option Text
  pub network : Network

module _ {W : Type 0} (o : Outside W) where
  unfoldable pub welcome_mail : Email → Mail
  welcome_mail dto = record {
    from = o.env.email_from;
    to = some dto.recipient;
    subject = dto.subject;
    html = template_welcome dto.text;
  }

  unfoldable pub send_email : Email → Io W (Unit {0})
  send_email dto = try_catch (o.mailer.send (welcome_mail dto)) (λ e. pure tt)

  unfoldable pub otp_mail : EmailOtp → Mail
  otp_mail dto = record {
    from = o.env.email_from;
    to = some dto.recipient;
    subject = dto.subject;
    html = send_email_template (otp_template dto.wallet_address dto.otp);
  }

  unfoldable pub send_email_otp : EmailOtp → Io W (Unit {0})
  send_email_otp dto = try_catch (o.mailer.send (otp_mail dto)) (λ e. pure tt)

  -- The template of each kind of transaction.
  unfoldable pub transaction_body : TransactionMessage → NotificationType → Text
  transaction_body m mint = mint_template o.env m.wallet_address m.transaction_hash m.network
  transaction_body m redeem = redeem_template o.env m.wallet_address m.transaction_hash m.network

  unfoldable pub transaction_mail : TransactionMessage → NotificationType → Mail
  transaction_mail m event = record {
    from = o.env.email_from;
    to = m.recipient;
    subject = m.subject;
    html = send_email_template (transaction_body m event);
  }

  unfoldable pub send_email_transaction : TransactionMessage → NotificationType → Io W (Unit {0})
  send_email_transaction m event =
      try_catch (o.mailer.send (transaction_mail m event)) (λ e. pure tt)
